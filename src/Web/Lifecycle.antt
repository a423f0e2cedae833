-- ===== src/Web/Lifecycle.antt =====
-- The components of pkg/bear/lifecycle.go and their stops in strict mode. A component is its number.
pub mod Start
pub mod Order
pub mod Gone
pub mod Legacy
pub mod Once
pub mod Settled
pub mod Live
pub mod Begun
pub mod Retry
mod Tests
use Prim.Native.String.{String}
use gin_bear.Base.{
  ℕ, ◌&&◌, ◌||◌, not, Bool, true, false, Option, none, some, List, [], ◌∷◌, ◌++◌, if◌then◌else◌,
}

-- `lifecycleEntryStopState`.
pub data StopState : Type 0 where
  pending stopping retry_pending stopped_clean stopped_with_error : StopState

-- Which of the shutdown interfaces a component has.
pub data Shutdown : Type 0 where
  with_context without_context no_shutdown : Shutdown

-- `lifecycleEntry`, with what the component implements. A stop attempt under way is the state
-- `stopping`.
pub record Entry : Type 0 where
  pub component : ℕ
  pub shutdown : Shutdown
  pub initializes : Bool
  pub active : Bool
  pub prestarted : Bool
  pub started : Bool
  pub stopped : Bool
  pub stop_state : StopState
  pub terminal_err : Option String
  pub legacy_started : Bool

-- `lifecycleState`.
pub data Phase : Type 0 where
  is_new is_starting is_started is_stopping is_stopped : Phase

-- An error with the component that it names.
pub data Problem : Type 0 where
  init_not_started init_failed : ℕ → String → Problem
  shutdown_not_started shutdown_failed : ℕ → String → Problem
  start_after_stop registration_closed : Problem

-- `Lifecycle`; a joined error is the list of its parts, and nil is no parts.
pub record Lifecycle : Type 0 where
  pub components : List Entry
  pub strict : Bool
  pub phase : Phase
  pub sealed : Bool
  pub start_err : Option Problem
  pub start_retryable : Bool
  pub stop_err : List Problem

-- What waiting for an attempt shows: the context ends first, or the attempt ends, with an error or
-- none; the flag says whether the error is that of the attempt's context.
pub data Wait : Type 0 where
  unfinished : String → Wait
  finished : Wait
  finished_with : String → Bool → Wait

-- What one stop meets: `ctx.Err()` at the head of the loop, before an attempt and after an old one,
-- and the waits for attempts of earlier calls and of this one.
pub record StopEnv : Type 0 where
  pub ctx_at : ℕ → Option String
  pub ctx_before : ℕ → Option String
  pub ctx_after : ℕ → Option String
  pub wait_old : ℕ → Wait
  pub wait_new : ℕ → Wait

-- The end of one entry's turn: `calls` has the component if its shutdown was called.
pub record Turn : Type 0 where
  pub entry : Entry
  pub err : Option String
  pub complete : Bool
  pub calls : List ℕ

abbrev pub ends_clean : Entry → List ℕ → Turn
ends_clean e calls = record {
  entry = record e { stop_state = stopped_clean; stopped = true };
  err = none;
  complete = true;
  calls = calls;
}

abbrev pub ends_with : Entry → String → List ℕ → Turn
ends_with e text calls = record {
  entry = record e { stop_state = stopped_with_error; stopped = true; terminal_err = some text };
  err = some text;
  complete = true;
  calls = calls;
}

abbrev pub stays : Entry → String → List ℕ → Turn
stays e text calls = record { entry = e; err = some text; complete = false; calls = calls }

-- An attempt of this call.
abbrev pub waited_new : Entry → Wait → Turn
waited_new e (unfinished text) = stays (record e { stop_state = stopping }) text (e.component ∷ [])
waited_new e finished = ends_clean e (e.component ∷ [])
waited_new e (finished_with text true) =
    stays (record e { stop_state = retry_pending }) text (e.component ∷ [])
waited_new e (finished_with text false) = ends_with e text (e.component ∷ [])

abbrev pub new_attempt : StopEnv → Entry → Turn
new_attempt env e = elim (env.ctx_before e.component) [
  | some text ↦ stays e text []
  | none ↦ waited_new e (env.wait_new e.component)
]

-- An attempt of an earlier call.
abbrev pub waited_old : StopEnv → Entry → Wait → Turn
waited_old env e (unfinished text) = stays e text []
waited_old env e finished = ends_clean e []
waited_old env e (finished_with text true) = elim (env.ctx_after e.component) [
  | some late ↦ stays (record e { stop_state = retry_pending }) text []
  | none ↦ new_attempt env (record e { stop_state = retry_pending })
]
waited_old env e (finished_with text false) = ends_with e text []

abbrev pub waited_legacy : Entry → Wait → List ℕ → Turn
waited_legacy e (unfinished text) calls = stays e text calls
waited_legacy e finished calls = ends_clean e calls
waited_legacy e (finished_with text by_context) calls = ends_with e text calls

abbrev pub stop_with_context : StopEnv → Entry → StopState → Turn
stop_with_context env e stopping = waited_old env e (env.wait_old e.component)
stop_with_context env e _ = new_attempt env e

abbrev pub stop_without_context : StopEnv → Entry → Bool → Turn
stop_without_context env e true = waited_legacy e (env.wait_old e.component) []
stop_without_context env e false = elim (env.ctx_before e.component) [
  | some text ↦ stays e text []
  | none ↦
      waited_legacy (record e { stop_state = stopping; legacy_started = true })
        (env.wait_new e.component) (e.component ∷ [])
]

-- `stopStrictEntry`.
abbrev pub stop_as : StopEnv → Entry → Shutdown → Turn
stop_as env e with_context = stop_with_context env e e.stop_state
stop_as env e without_context = stop_without_context env e e.legacy_started
stop_as env e no_shutdown = ends_clean e []

unfoldable pub stop_strict_entry : StopEnv → Entry → Turn
stop_strict_entry env e = stop_as env e e.shutdown

-- The stop of all entries.
pub record Stops : Type 0 where
  pub entries : List Entry
  pub errs : List Problem
  pub complete : Bool
  pub calls : List ℕ

abbrev pub is_settled : StopState → Bool
is_settled stopped_clean = true
is_settled stopped_with_error = true
is_settled _ = false

-- Whether the loop passes the entry over.
abbrev pub is_passed : Entry → Bool
is_passed e = not e.started || is_settled e.stop_state

abbrev pub problem_of : ℕ → Option String → List Problem
problem_of c none = []
problem_of c (some text) = shutdown_failed c text ∷ []

abbrev pub after_turn : Turn → Stops → Stops
after_turn t s = record {
  entries = t.entry ∷ s.entries;
  errs = s.errs ++ problem_of t.entry.component t.err;
  complete = t.complete;
  calls = s.calls ++ t.calls;
}

-- One round of the loop, after those of the later entries.
abbrev pub stop_next : StopEnv → Entry → Stops → Stops
stop_next env e s =
    if is_passed e then record s { entries = e ∷ s.entries } else elim (env.ctx_at e.component) [
      | some text ↦ record {
        entries = e ∷ s.entries;
        errs = s.errs ++ shutdown_not_started e.component text ∷ [];
        complete = false;
        calls = s.calls;
      }
      | none ↦ after_turn (stop_strict_entry env e) s
    ]

-- `stopStrictEntries`: the later entries first.
unfoldable pub stop_strict_entries : StopEnv → List Entry → Stops
stop_strict_entries env [] = record { entries = []; errs = []; complete = true; calls = [] }
stop_strict_entries env (e ∷ es) =
    let later = stop_strict_entries env es in
    if later.complete then stop_next env e later else record later { entries = e ∷ later.entries }
