-- ===== src/Tasks/Calls.antt =====
-- The calls of the task store as values, and sequences of calls by any number of instances.
use Prim.Native.String.{String}
use gin_bear.Base.{ℕ, List, [], ◌∷◌}
use gin_bear.Base.Int.{ℤ}
use gin_bear.Tasks.Types.{Task, Db, Env, Outcome}
use gin_bear.Tasks.Sql.{M, ◌>>=◌, return}
use gin_bear.Tasks.Submit.{submit}
use gin_bear.Tasks.Approve.{approve}
use gin_bear.Tasks.Claim.{claim}
use gin_bear.Tasks.Complete.{complete, cancel}
use gin_bear.Tasks.Sweep.{sweep_timeouts, recover}
use gin_bear.Tasks.Intent.{reserve, record_intent, renew_lease}
use gin_bear.Tasks.Reconcile.{confirm_unknown_as, requeue_unknown_as}
use gin_bear.Tasks.Worker.{Worker, run_once}

-- The exported operations of tasks.go that change rows; `works` is one `RunOnce`, with the
-- environments of its checks and of its last store.
pub data Call : Type 0 where
  submits : Task → Call
  approves : String → String → String → Call
  claims : String → ℤ → Call
  completes : String → ℕ → Outcome → Call
  cancels : ℕ → String → Call
  sweeps recovers : Call
  reserves : String → ℕ → ℤ → Call
  intends : String → ℕ → Call
  renews : String → String → ℤ → Call
  confirms : String → String → String → ℤ → Call
  requeues : String → String → Call
  works : Env → Env → Worker → Call

abbrev pub drop_value : {A : Type 0} → M A → M (Unit {0})
drop_value m = m >>= λ _. return tt

unfoldable pub run_call : Env → Call → M (Unit {0})
run_call env (submits t) = drop_value (submit env t)
run_call env (approves id operator args) = drop_value (approve env id operator args)
run_call env (claims owner lease) = drop_value (claim env owner lease)
run_call env (completes id version o) = drop_value (complete env id version o)
run_call env (cancels rounds id) = drop_value (cancel env rounds 0 id)
run_call env sweeps = drop_value (sweep_timeouts env)
run_call env recovers = drop_value (recover env)
run_call env (reserves id version amount) = drop_value (reserve env id version amount)
run_call env (intends id version) = drop_value (record_intent env id version)
run_call env (renews id owner lease) = drop_value (renew_lease env id owner lease)
run_call env (confirms id actor result usage) =
    drop_value (confirm_unknown_as env id actor result usage)
run_call env (requeues id actor) = drop_value (requeue_unknown_as env id actor)
run_call env (works checking storing w) = drop_value (run_once env checking storing w)

-- The calls of all instances in the order in which they are made.
unfoldable pub run_calls : List (Env × Call) → Db → Db
run_calls [] db = db
run_calls ((env, c) ∷ rest) db = run_calls rest (run_call env c db).0
