-- ===== src/Web/Fairing/Tests.antt =====
-- A request through two fairings, of which the second fails.

use gin_bear.Base.{ℕ, true, false, none, some, [], ◌∷◌, eqb}
use gin_bear.Web.Fairing.{Fairing, replies}
use gin_bear.Web.Fairing.Pipeline.{App, compiled, run_pipeline, new_context}
use gin_bear.Web.Fairing.Onion.{configured, Onion, run_pipeline-Onion}

-- The world is the status that has been written, 0 before one is.
abbrev tracing : Fairing ℕ ℕ
tracing = record {
  number = 1;
  is_auth = false;
  on_request = λ w. (w, none);
  on_response = λ v. replies v;
}

abbrev guarding : Fairing ℕ ℕ
guarding = record {
  number = 2;
  is_auth = false;
  on_request = λ w. (w, some "denied");
  on_response = λ v. replies v;
}

abbrev small_app : App ℕ ℕ
small_app = record {
  strict = true;
  request_fairings = tracing ∷ [];
  terminal = λ w. eqb w 200;
  write_error = λ text w. 500;
  write_success = λ v w. 200;
  nil = 0;
}

run_pipeline-Onion_example :
    Onion small_app
      (configured small_app (guarding ∷ []))
      0
      (run_pipeline small_app (compiled λ w. (w, replies 7)) (guarding ∷ []) (new_context 0)).log
run_pipeline-Onion_example =
    run_pipeline-Onion small_app (compiled λ w. (w, replies 7)) (guarding ∷ []) 0
