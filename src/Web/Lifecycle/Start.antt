-- ===== src/Web/Lifecycle/Start.antt =====
-- `Start` and `Stop` of pkg/bear/lifecycle.go in strict mode, and registration.
use Prim.Native.String.{String}
use gin_bear.Base.{
  ℕ, ◌&&◌, ◌||◌, not, Bool, true, false, Option, none, some, List, [], ◌∷◌, ◌++◌, any, map,
  if◌then◌else◌,
}
use gin_bear.Web.Lifecycle.{
  StopState, pending, stopped_with_error, Shutdown, Entry, Phase, is_new, is_starting, is_started,
  is_stopping, is_stopped, Problem, init_not_started, init_failed, shutdown_failed,
  start_after_stop, registration_closed, Lifecycle, StopEnv, Stops, stop_strict_entries,
}

-- What a start meets: `ctx.Err()` before each component, what `Init` returns, and the rollback.
pub record StartEnv : Type 0 where
  pub ctx_err : ℕ → Option String
  pub init : ℕ → Option String
  pub rollback : StopEnv

-- The entries after the loop of a start, the failure that ended it, and the calls of `Init`.
pub record Starts : Type 0 where
  pub entries : List Entry
  pub failure : Option Problem
  pub inits : List ℕ

abbrev pub begun : Entry → Entry
begun e = record e {
  started = true;
  stopped = false;
  stop_state = pending;
  terminal_err = none;
  legacy_started = false;
}

abbrev pub go_on : Entry → List ℕ → Starts → Starts
go_on e inits s = record { entries = e ∷ s.entries; failure = s.failure; inits = inits ++ s.inits }

abbrev pub initialized : Entry → Option String → List Entry → Starts → Starts
initialized e (some text) es rest = record {
  entries = e ∷ es;
  failure = some (init_failed e.component text);
  inits = e.component ∷ [];
}
initialized e none es rest = go_on e (e.component ∷ []) rest

abbrev pub start_active : StartEnv → Entry → List Entry → Starts → Starts
start_active env e es rest =
    if e.initializes
    then initialized (begun e) (env.init e.component) es rest
    else go_on (begun e) [] rest

abbrev pub start_next : StartEnv → Entry → List Entry → Option String → Starts → Starts
start_next env e es (some text) rest = record {
  entries = e ∷ es;
  failure = some (init_not_started e.component text);
  inits = [];
}
start_next env e es none rest = if e.active then start_active env e es rest else go_on e [] rest

-- The loop of `startStrictComponents`.
unfoldable pub start_entries : StartEnv → List Entry → Starts
start_entries env [] = record { entries = []; failure = none; inits = [] }
start_entries env (e ∷ es) = start_next env e es (env.ctx_err e.component) (start_entries env es)

-- `resetStrictEntriesForRetryLocked`, of one entry.
abbrev pub reset : Entry → Entry
reset e = record e {
  started = false;
  stopped = false;
  stop_state = pending;
  terminal_err = none;
  legacy_started = false;
}

abbrev pub has_prestarted : List Entry → Bool
has_prestarted es = any (λ (e : Entry). e.started && e.prestarted) es

abbrev pub is_nil : List Problem → Bool
is_nil [] = true
is_nil (p ∷ ps) = false

-- What a call returns: an error with the error of its rollback, or that it waits for another call.
pub data Result : Type 0 where
  returns : Option Problem → List Problem → Result
  waits : Result

-- A call's end: the calls of `Init`, and then those of shutdowns.
pub record Outcome : Type 0 where
  pub lifecycle : Lifecycle
  pub result : Result
  pub inits : List ℕ
  pub calls : List ℕ

abbrev pub quiet : Lifecycle → Result → Outcome
quiet l result = record { lifecycle = l; result = result; inits = []; calls = [] }

-- `rollbackStrictStart`, after the entries are stopped.
abbrev pub rolled_back : Lifecycle → Problem → List Entry → Stops → Lifecycle
rolled_back l failure started s =
    if s.complete && is_nil s.errs && not (has_prestarted started)
    then record l {
      components = map reset s.entries;
      phase = is_new;
      start_err = some failure;
      start_retryable = true;
      stop_err = [];
    }
    else record l {
      components = s.entries;
      phase = if s.complete then is_stopped else is_started;
      start_err = some failure;
      start_retryable = false;
      stop_err = s.errs;
    }

abbrev pub start_ends : StartEnv → Lifecycle → List Entry → List ℕ → Option Problem → Outcome
start_ends env l entries inits none = record {
  lifecycle = record l {
    components = entries;
    phase = is_started;
    start_err = none;
    start_retryable = false;
  };
  result = returns none [];
  inits = inits;
  calls = [];
}
start_ends env l entries inits (some failure) =
    let s = stop_strict_entries env.rollback entries in
    record {
      lifecycle = rolled_back l failure entries s;
      result = returns (some failure) s.errs;
      inits = inits;
      calls = s.calls;
    }

abbrev pub after_stopped : Option Problem → Option Problem
after_stopped (some failure) = some failure
after_stopped none = some start_after_stop

-- `startStrict`.
abbrev pub start_in : StartEnv → Lifecycle → Phase → Outcome
start_in env l is_stopped = quiet l (returns (after_stopped l.start_err) [])
start_in env l is_started = quiet l (returns l.start_err [])
start_in env l is_starting = quiet l waits
start_in env l is_stopping = quiet l waits
start_in env l is_new =
    let s = start_entries env l.components in start_ends env l s.entries s.inits s.failure

unfoldable pub start_strict : StartEnv → Lifecycle → Outcome
start_strict env l = start_in env l l.phase

abbrev pub terminal_of : Entry → StopState → Option String → List Problem
terminal_of e stopped_with_error (some text) = shutdown_failed e.component text ∷ []
terminal_of e _ _ = []

-- `strictTerminalStopError`.
unfoldable pub strict_terminal_stop_error : List Entry → List Problem
strict_terminal_stop_error [] = []
strict_terminal_stop_error (e ∷ es) =
    terminal_of e e.stop_state e.terminal_err ++ strict_terminal_stop_error es

abbrev pub stop_ends : Lifecycle → Stops → Outcome
stop_ends l s =
    let terminal = strict_terminal_stop_error s.entries in
    if s.complete
    then record {
      lifecycle = record l { components = s.entries; phase = is_stopped; stop_err = terminal };
      result = returns none terminal;
      inits = [];
      calls = s.calls;
    }
    else record {
      lifecycle = record l { components = s.entries; phase = is_started; stop_err = [] };
      result = returns none s.errs;
      inits = [];
      calls = s.calls;
    }

-- `stopStrict`.
abbrev pub stop_in : StopEnv → Lifecycle → Phase → Outcome
stop_in env l is_stopped = quiet l (returns none l.stop_err)
stop_in env l is_starting = quiet l waits
stop_in env l is_stopping = quiet l waits
stop_in env l _ = stop_ends l (stop_strict_entries env l.components)

unfoldable pub stop_strict : StopEnv → Lifecycle → Outcome
stop_strict env l = stop_in env l l.phase

-- `add`, of one component, as `isLifecyclePrestarted` says of it.
abbrev pub new_entry : ℕ → Shutdown → Bool → Bool → Entry
new_entry c shutdown initializes prestarted = record {
  component = c;
  shutdown = shutdown;
  initializes = initializes;
  active = true;
  prestarted = prestarted;
  started = prestarted;
  stopped = false;
  stop_state = pending;
  terminal_err = none;
  legacy_started = false;
}

abbrev pub is_open : Phase → Bool
is_open is_new = true
is_open _ = false

-- `TryAdd`.
unfoldable pub try_add : Entry → Lifecycle → Lifecycle × Option Problem
try_add e l =
    if l.sealed || not (is_open l.phase)
    then (l, some registration_closed)
    else (record l { components = l.components ++ e ∷ [] }, none)

-- `sealRegistration`.
unfoldable pub seal_registration : Lifecycle → Lifecycle
seal_registration l = record l { sealed = true }
