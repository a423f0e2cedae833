-- ===== src/Web/Lifecycle/Settled.antt =====
-- What a strict stop of pkg/bear/lifecycle.go leaves.

use gin_bear.Base.{
  ◌≡◌, ◌≢◌, refl, ap, ◌⊎◌, inl, inr, true, false, Bool-cases, none, List, [], ◌∷◌, ◌++◌, map, All,
}
use gin_bear.Web.Lifecycle.{
  Entry, is_new, is_started, is_stopped, Problem, shutdown_failed, Lifecycle, StopEnv, Turn, Stops,
  is_settled, is_passed, after_turn, stop_strict_entries,
}
use gin_bear.Web.Lifecycle.Start.{
  reset, returns, Outcome, strict_terminal_stop_error, stop_ends, stop_strict,
}
use gin_bear.Web.Lifecycle.Order.{
  TurnOf, settles, goes_on, stop_strict_entries_ind, InOrder, to_stop, stop_strict_entries-InOrder,
}
use gin_bear.Web.Lifecycle.Gone.{Gone, stop_strict_entries-Gone}

-- A component that was started has been stopped, with or without an error.
abbrev pub Settled : Entry → Type 0
Settled e = e.started ≡ true → is_settled e.stop_state ≡ true

abbrev pub StopsWell : Stops → Type 0
StopsWell s = (s.complete ≡ true → All Settled s.entries) × (s.complete ≡ false → s.errs ≢ [])

passed-Settled : (e : Entry) → is_passed e ≡ true → Settled e
passed-Settled e over started = rw started at over

append_cons : (ps : List Problem) (p : Problem) → ps ++ p ∷ [] ≢ []
append_cons [] p h = absurd (cc)
append_cons (q ∷ ps) p h = absurd (cc)

after_turn-StopsWell :
    (e : Entry) (t : Turn) (s : Stops)
    → TurnOf e t
    → s.complete ≡ true
    → StopsWell s
    → StopsWell (after_turn t s)
after_turn-StopsWell e _ s (settles {e'} same started settled h) done (all, some_left) =
    ((λ c. ((λ on. settled), all done)), λ c. absurd (cc))
after_turn-StopsWell e _ s (goes_on {e'} {text} same started h) done (all, some_left) =
    ((λ c. absurd (cc)), λ c. append_cons s.errs (shutdown_failed e'.component text))

pub stop_strict_entries-StopsWell :
    (env : StopEnv) (es : List Entry) → StopsWell (stop_strict_entries env es)
stop_strict_entries-StopsWell env =
    stop_strict_entries_ind env (λ es s. StopsWell s) ((λ c. tt), λ c. absurd (cc))
      (λ e es s c h. ((λ c'. absurd (cc)), h.1))
      (λ e es s c over h. ((λ c'. (passed-Settled e over, h.0 c')), h.1))
      (λ e es s text ctx on h. ((λ c'. absurd (cc)), λ c'. append_cons s.errs _))
      (λ e es s c on t h. after_turn-StopsWell e _ s t c h)

-- A stop changes the progress of entries only.
pub reset-stop_strict_entries :
    (env : StopEnv) (es : List Entry)
    → map reset (stop_strict_entries env es).entries ≡ map reset es
reset-stop_strict_entries env =
    stop_strict_entries_ind env (λ es s. map reset s.entries ≡ map reset es) refl
      (λ e es s c h. ap (λ xs. reset e ∷ xs) h) (λ e es s c over h. ap (λ xs. reset e ∷ xs) h)
      (λ e es s text ctx on h. ap (λ xs. reset e ∷ xs) h)
      (λ e es s c on t h. let same = kept t in cc)
  where
    kept : {e : Entry} {t : Turn} → TurnOf e t → reset t.entry ≡ reset e
    kept (settles same started settled h) = same
    kept (goes_on same started h) = same

-- How a stop that is not refused ends: every started component is stopped, as `Gone` says, and the
-- call returns all that went wrong, in this call and in earlier ones; or the lifecycle stays started,
-- shutdowns of some components were called, and the call returns an error.
pub data StopEnds (env : StopEnv) (l : Lifecycle) : Outcome → Type 0 where
  all_stopped :
      {o : Outcome} {errs : List Problem}
      → o.lifecycle.phase ≡ is_stopped
      → All Settled o.lifecycle.components
      → Gone env l.components o.lifecycle.components o.calls errs
      → o.result ≡ returns none errs
      → StopEnds env l o
  some_left :
      {o : Outcome} (errs : List Problem)
      → o.lifecycle.phase ≡ is_started
      → InOrder o.calls (to_stop l.components)
      → errs ≢ []
      → o.result ≡ returns none errs
      → StopEnds env l o

stop_ends-StopEnds :
    (env : StopEnv) (l : Lifecycle) (s : Stops)
    → StopsWell s
    → InOrder s.calls (to_stop l.components)
    → (s.complete ≡ true
        → Gone env l.components s.entries s.calls (strict_terminal_stop_error s.entries))
    → StopEnds env l (stop_ends l s)
stop_ends-StopEnds env l s (all, left) calls gone = elim (Bool-cases s.complete) [
  | inl done ↦ rw done (all_stopped refl (all done) (gone done) refl)
  | inr cut_off ↦ rw cut_off (some_left s.errs refl calls (left cut_off) refl)
]

-- The phases in which a stop does its work.
abbrev pub Stoppable : Lifecycle → Type 0
Stoppable l = (l.phase ≡ is_new) ⊎ (l.phase ≡ is_started)

pub stop_strict_ind :
    (P : Outcome → Type 0) (env : StopEnv) (l : Lifecycle)
    → Stoppable l
    → P (stop_ends l (stop_strict_entries env l.components))
    → P (stop_strict env l)
unfolding stop_strict
stop_strict_ind P env l (inl fresh) h = rw fresh h
stop_strict_ind P env l (inr running) h = rw running h

-- A strict `Stop` that finds no other call under way either stops every started component, or stays
-- started, having called shutdowns in reverse order, each at most once, and returns an error of its
-- own. Where it stops them, each was stopped already, or has no shutdown, or its shutdown was called
-- and has ended, or an attempt that was under way has; the calls are in reverse order; and the errors
-- returned are those with which the shutdowns of all components ended, in this stop or an earlier one.
pub stop_strict-StopEnds :
    (env : StopEnv) (l : Lifecycle) → Stoppable l → StopEnds env l (stop_strict env l)
stop_strict-StopEnds env l stoppable = stop_strict_ind (StopEnds env l) env l stoppable (
    stop_ends-StopEnds env l (stop_strict_entries env l.components)
      (stop_strict_entries-StopsWell env l.components)
      (stop_strict_entries-InOrder env l.components) (stop_strict_entries-Gone env l.components))
