-- ===== src/Web/Lifecycle/Legacy.antt =====
-- `Start` and `Stop` of pkg/bear/lifecycle.go outside strict mode.
use Prim.Native.String.{String}
use gin_bear.Base.{
  ℕ, ◌&&◌, not, Bool, true, false, Option, none, some, List, [], ◌∷◌, ◌++◌, if◌then◌else◌,
}
use gin_bear.Web.Lifecycle.{
  Shutdown, no_shutdown, Entry, Phase, is_new, is_starting, is_started, is_stopping, is_stopped,
  Problem, init_failed, shutdown_not_started, Lifecycle, problem_of,
}
use gin_bear.Web.Lifecycle.Start.{returns, waits, Outcome, quiet, after_stopped}

-- What a call meets: what `Init` returns, `ctx.Err()` at the head of the loop of stops, before the
-- worker of a shutdown and after it, and what waiting for the worker returns.
pub record LegacyEnv : Type 0 where
  pub init : ℕ → Option String
  pub ctx_at : ℕ → Option String
  pub ctx_before : ℕ → Option String
  pub ctx_after : ℕ → Option String
  pub worker : ℕ → Option String

-- The loop of stops: `cut` after a `break`.
pub record LegacyStops : Type 0 where
  pub errs : List Problem
  pub cut : Bool
  pub calls : List ℕ

-- `stopLifecycleComponent`: its error and whether the shutdown was called.
abbrev pub run_worker : LegacyEnv → ℕ → Option String → Option String × List ℕ
run_worker env c (some text) = (some text, [])
run_worker env c none = (env.worker c, c ∷ [])

abbrev pub stop_component : LegacyEnv → Entry → Shutdown → Option String × List ℕ
stop_component env e no_shutdown = (none, [])
stop_component env e _ = run_worker env e.component (env.ctx_before e.component)

abbrev pub is_set : Option String → Bool
is_set none = false
is_set (some text) = true

abbrev pub worked : LegacyEnv → Entry → Option String × List ℕ → LegacyStops → LegacyStops
worked env e (err, calls) s = record {
  errs = s.errs ++ problem_of e.component err;
  cut = is_set (env.ctx_after e.component);
  calls = s.calls ++ calls;
}

abbrev pub stop_round : LegacyEnv → Entry → Option String → LegacyStops → LegacyStops
stop_round env e (some text) s = record {
  errs = s.errs ++ shutdown_not_started e.component text ∷ [];
  cut = true;
  calls = s.calls;
}
stop_round env e none s = worked env e (stop_component env e e.shutdown) s

-- Whether a stop takes the entry.
abbrev pub is_taken : Entry → Bool
is_taken e = e.started && not e.stopped

-- `stopLifecycleComponents` over the entries that are taken, the later ones first.
unfoldable pub stop_lifecycle_components : LegacyEnv → List Entry → LegacyStops
stop_lifecycle_components env [] = record { errs = []; cut = false; calls = [] }
stop_lifecycle_components env (e ∷ es) =
    let later = stop_lifecycle_components env es in
    if is_taken e && not later.cut then stop_round env e (env.ctx_at e.component) later else later

abbrev pub take : Entry → Entry
take e = if is_taken e then record e { stopped = true } else e

abbrev pub take_all : List Entry → List Entry
take_all [] = []
take_all (e ∷ es) = take e ∷ take_all es

-- `Stop` of what is taken: `stopComponents`, and the same in `rollbackStart`.
abbrev pub stopped_with : Lifecycle → List Problem → List Entry → Lifecycle
stopped_with l errs es = record l { components = take_all es; phase = is_stopped; stop_err = errs }

-- The entries after the loop of a start, and its failure.
pub record LegacyStarts : Type 0 where
  pub entries : List Entry
  pub failure : Option Problem
  pub inits : List ℕ

abbrev pub marked : Entry → List ℕ → LegacyStarts → LegacyStarts
marked e inits s = record {
  entries = record e { started = true } ∷ s.entries;
  failure = s.failure;
  inits = inits ++ s.inits;
}

abbrev pub init_ends : Entry → Option String → List Entry → LegacyStarts → LegacyStarts
init_ends e (some text) es s = record {
  entries = e ∷ es;
  failure = some (init_failed e.component text);
  inits = e.component ∷ [];
}
init_ends e none es s = marked e (e.component ∷ []) s

-- The loop of `startComponents`.
unfoldable pub start_components : LegacyEnv → List Entry → LegacyStarts
start_components env [] = record { entries = []; failure = none; inits = [] }
start_components env (e ∷ es) =
    let rest = start_components env es in
    if not e.active
    then record rest { entries = e ∷ rest.entries }
    else if e.initializes
    then init_ends e (env.init e.component) es rest
    else marked e [] rest

abbrev pub start_ends : LegacyEnv → Lifecycle → List Entry → List ℕ → Option Problem → Outcome
start_ends env l entries inits none = record {
  lifecycle = record l { components = entries; phase = is_started };
  result = returns none [];
  inits = inits;
  calls = [];
}
start_ends env l entries inits (some failure) =
    let s = stop_lifecycle_components env entries in
    record {
      lifecycle = record (stopped_with l s.errs entries) { start_err = some failure };
      result = returns (some failure) s.errs;
      inits = inits;
      calls = s.calls;
    }

-- `Start`.
abbrev pub start_in : LegacyEnv → Lifecycle → Phase → Outcome
start_in env l is_stopped = quiet l (returns (after_stopped l.start_err) [])
start_in env l is_started = quiet l (returns l.start_err [])
start_in env l is_starting = quiet l waits
start_in env l is_stopping = quiet l waits
start_in env l is_new =
    let s = start_components env l.components in start_ends env l s.entries s.inits s.failure

unfoldable pub start_legacy : LegacyEnv → Lifecycle → Outcome
start_legacy env l = start_in env l l.phase

abbrev pub stop_all : LegacyEnv → Lifecycle → Outcome
stop_all env l =
    let s = stop_lifecycle_components env l.components in
    record {
      lifecycle = stopped_with l s.errs l.components;
      result = returns none s.errs;
      inits = [];
      calls = s.calls;
    }

-- `Stop`.
abbrev pub stop_in : LegacyEnv → Lifecycle → Phase → Outcome
stop_in env l is_stopped = quiet l (returns none l.stop_err)
stop_in env l is_starting = quiet l waits
stop_in env l is_stopping = quiet l waits
stop_in env l _ = stop_all env l

unfoldable pub stop_legacy : LegacyEnv → Lifecycle → Outcome
stop_legacy env l = stop_in env l l.phase
