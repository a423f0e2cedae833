-- ===== src/Web/Lifecycle/Gone.antt =====
-- What a strict stop of pkg/bear/lifecycle.go does to each component.
use Prim.Native.String.{String}
use gin_bear.Base.{ℕ, ◌≡◌, refl, not, Bool, true, false, Option, none, some, List, [], ◌∷◌, ◌++◌}
use gin_bear.Web.Lifecycle.{
  StopState, pending, stopping, retry_pending, stopped_clean, stopped_with_error, Shutdown,
  with_context, without_context, no_shutdown, Entry, Problem, shutdown_failed, StopEnv, Wait,
  unfinished, finished, finished_with, Turn, stays, waited_new, new_attempt, waited_old,
  waited_legacy, stop_with_context, stop_without_context, stop_as, stop_strict_entry, is_passed,
  stop_strict_entries,
}
use gin_bear.Web.Lifecycle.Start.{reset, terminal_of, strict_terminal_stop_error}
use gin_bear.Web.Lifecycle.Order.{TurnOf, settles, goes_on, stop_strict_entries_ind}

-- Whether no attempt to shut the component down is under way that a stop would wait for.
abbrev pub due_as : Shutdown → StopState → Bool → Bool
due_as with_context stopping legacy = false
due_as with_context _ legacy = true
due_as without_context state legacy = not legacy
due_as no_shutdown state legacy = false

abbrev pub is_due : Entry → Bool
is_due e = due_as e.shutdown e.stop_state e.legacy_started

-- What the end of an attempt makes of an entry.
pub data Verdict (e' : Entry) : Wait → Type 0 where
  well : e'.stop_state ≡ stopped_clean → Verdict e' finished
  badly :
      (text : String) (by_context : Bool)
      → e'.stop_state ≡ stopped_with_error
      → e'.terminal_err ≡ some text
      → Verdict e' (finished_with text by_context)

-- How a component that was to be stopped came to its end, with the calls of its shutdown: it has none;
-- or a call of this stop has ended; or, where one was under way, that one has.
pub data Ended (env : StopEnv) (e e' : Entry) : List ℕ → Type 0 where
  nothing_to_call : e.shutdown ≡ no_shutdown → e'.stop_state ≡ stopped_clean → Ended env e e' []
  called :
      {w : Wait} → env.wait_new e.component ≡ w → Verdict e' w → Ended env e e' (e.component ∷ [])
  awaited :
      {w : Wait}
      → is_due e ≡ false
      → env.wait_old e.component ≡ w
      → Verdict e' w
      → Ended env e e' []

module _ (env : StopEnv) (e : Entry) where
  abbrev EndedBy : Turn → Type 0
  EndedBy t = t.complete ≡ true → Ended env e t.entry t.calls

  abbrev at : StopState → Entry
  at state = record e { stop_state = state }

  waited_new-EndedBy :
      (state : StopState) (w : Wait)
      → env.wait_new e.component ≡ w
      → EndedBy (waited_new (at state) w)
  waited_new-EndedBy state (unfinished text) h c = absurd (cc)
  waited_new-EndedBy state finished h c = called h (well refl)
  waited_new-EndedBy state (finished_with text true) h c = absurd (cc)
  waited_new-EndedBy state (finished_with text false) h c = called h (badly text false refl refl)

  new_attempt-EndedBy : (state : StopState) → EndedBy (new_attempt env (at state))
  new_attempt-EndedBy state = go (env.ctx_before e.component)
    where
      go :
          (o : Option String)
          → EndedBy (elim o [
            | some text ↦ stays (at state) text []
            | none ↦ waited_new (at state) (env.wait_new e.component)
          ])
      go (some text) c = absurd (cc)
      go none c = waited_new-EndedBy state _ refl c

  waited_old-EndedBy :
      (w : Wait) → is_due e ≡ false → env.wait_old e.component ≡ w → EndedBy (waited_old env e w)
  waited_old-EndedBy (unfinished text) due h c = absurd (cc)
  waited_old-EndedBy finished due h c = awaited due h (well refl)
  waited_old-EndedBy (finished_with text false) due h c = awaited due h (badly text false refl refl)
  waited_old-EndedBy (finished_with text true) due h c = go (env.ctx_after e.component) c
    where
      go :
          (o : Option String)
          → EndedBy (elim o [
            | some late ↦ stays (at retry_pending) text []
            | none ↦ new_attempt env (at retry_pending)
          ])
      go (some late) c = absurd (cc)
      go none c = new_attempt-EndedBy retry_pending c

  waited_legacy-awaited :
      (w : Wait) → is_due e ≡ false → env.wait_old e.component ≡ w → EndedBy (waited_legacy e w [])
  waited_legacy-awaited (unfinished text) due h c = absurd (cc)
  waited_legacy-awaited finished due h c = awaited due h (well refl)
  waited_legacy-awaited (finished_with text b) due h c = awaited due h (badly text b refl refl)

  waited_legacy-called :
      (e₁ : Entry) (w : Wait)
      → env.wait_new e.component ≡ w
      → EndedBy (waited_legacy e₁ w (e.component ∷ []))
  waited_legacy-called e₁ (unfinished text) h c = absurd (cc)
  waited_legacy-called e₁ finished h c = called h (well refl)
  waited_legacy-called e₁ (finished_with text b) h c = called h (badly text b refl refl)

  stop_with_context-EndedBy :
      (state : StopState)
      → e.stop_state ≡ state
      → e.shutdown ≡ with_context
      → EndedBy (stop_with_context env e state)
  stop_with_context-EndedBy stopping h s = waited_old-EndedBy _ (rw (s, h) refl) refl
  stop_with_context-EndedBy pending h s = new_attempt-EndedBy e.stop_state
  stop_with_context-EndedBy retry_pending h s = new_attempt-EndedBy e.stop_state
  stop_with_context-EndedBy stopped_clean h s = new_attempt-EndedBy e.stop_state
  stop_with_context-EndedBy stopped_with_error h s = new_attempt-EndedBy e.stop_state

  stop_without_context-EndedBy :
      (b : Bool)
      → e.legacy_started ≡ b
      → e.shutdown ≡ without_context
      → EndedBy (stop_without_context env e b)
  stop_without_context-EndedBy true h s = waited_legacy-awaited _ (rw (s, h) refl) refl
  stop_without_context-EndedBy false h s = go (env.ctx_before e.component)
    where
      tried : Entry
      tried = record e { stop_state = stopping; legacy_started = true }

      go :
          (o : Option String)
          → EndedBy (elim o [
            | some text ↦ stays e text []
            | none ↦ waited_legacy tried (env.wait_new e.component) (e.component ∷ [])
          ])
      go (some text) c = absurd (cc)
      go none c = waited_legacy-called tried _ refl c

  stop_strict_entry-EndedBy : EndedBy (stop_strict_entry env e)
  unfolding stop_strict_entry
  stop_strict_entry-EndedBy = go _ refl
    where
      go : (s : Shutdown) → e.shutdown ≡ s → EndedBy (stop_as env e s)
      go with_context h = stop_with_context-EndedBy _ refl h
      go without_context h = stop_without_context-EndedBy _ refl h
      go no_shutdown h = λ c. nothing_to_call h refl

-- What an entry contributes to the errors of a stop: the error with which its shutdown ended.
pub data Reports (e : Entry) : List Problem → Type 0 where
  reports_none : (e.stop_state ≡ stopped_with_error → e.terminal_err ≡ none) → Reports e []
  reports :
      (text : String)
      → e.stop_state ≡ stopped_with_error
      → e.terminal_err ≡ some text
      → Reports e (shutdown_failed e.component text ∷ [])

terminal_of-Reports :
    (e : Entry) (state : StopState) (o : Option String)
    → e.stop_state ≡ state
    → e.terminal_err ≡ o
    → Reports e (terminal_of e state o)
terminal_of-Reports e stopped_with_error (some text) h k = reports text h k
terminal_of-Reports e stopped_with_error none h k = reports_none λ _. k
terminal_of-Reports e pending o h k = reports_none λ x. absurd (cc)
terminal_of-Reports e stopping o h k = reports_none λ x. absurd (cc)
terminal_of-Reports e retry_pending o h k = reports_none λ x. absurd (cc)
terminal_of-Reports e stopped_clean o h k = reports_none λ x. absurd (cc)

-- All entries before and after a stop that reached all of them, its calls of shutdowns, the last
-- component first, and the errors of all the components, the first one first.
pub data Gone (env : StopEnv) : List Entry → List Entry → List ℕ → List Problem → Type 0 where
  gone_all : Gone env [] [] [] []
  gone_by :
      {e : Entry} {es es' : List Entry} {calls : List ℕ} {ps errs : List Problem}
      → is_passed e ≡ true
      → Reports e ps
      → Gone env es es' calls errs
      → Gone env (e ∷ es) (e ∷ es') calls (ps ++ errs)
  gone_down :
      {e e' : Entry} {es es' : List Entry} {calls own : List ℕ} {ps errs : List Problem}
      → is_passed e ≡ false
      → reset e' ≡ reset e
      → Ended env e e' own
      → Reports e' ps
      → Gone env es es' calls errs
      → Gone env (e ∷ es) (e' ∷ es') (calls ++ own) (ps ++ errs)

TurnOf-reset : {e : Entry} {t : Turn} → TurnOf e t → reset t.entry ≡ reset e
TurnOf-reset (settles same started settled h) = same
TurnOf-reset (goes_on same started h) = same

pub stop_strict_entries-Gone :
    (env : StopEnv) (es : List Entry)
    → (stop_strict_entries env es).complete ≡ true
    → Gone env es
        (stop_strict_entries env es).entries
        (stop_strict_entries env es).calls
        (strict_terminal_stop_error (stop_strict_entries env es).entries)
unfolding strict_terminal_stop_error
stop_strict_entries-Gone env =
    stop_strict_entries_ind env
      (λ es s.
        s.complete ≡ true → Gone env es s.entries s.calls (strict_terminal_stop_error s.entries))
      (λ c. gone_all) (λ e es s cut h c. absurd (cc))
      (λ e es s done over h c. gone_by over (terminal_of-Reports e _ _ refl refl) (h c))
      (λ e es s text ctx on h c. absurd (cc))
      (λ e es s done on t h c.
        gone_down on (TurnOf-reset t) (stop_strict_entry-EndedBy env e c)
          (terminal_of-Reports (stop_strict_entry env e).entry _ _ refl refl) (h done))
