-- ===== src/Web/Lifecycle/Live.antt =====
-- Strict stops of pkg/bear/lifecycle.go in an environment that answers.
use Prim.Native.String.{String}
use gin_bear.Base.{ℕ, ◌≡◌, refl, Bool, true, false, none, List, []}
use gin_bear.Web.Lifecycle.{
  StopState, pending, stopping, retry_pending, stopped_clean, stopped_with_error, Shutdown,
  with_context, without_context, no_shutdown, Entry, is_stopped, Lifecycle, StopEnv, Wait,
  unfinished, finished, finished_with, waited_new, new_attempt, waited_old, waited_legacy,
  stop_with_context, stop_without_context, stop_as, stop_strict_entry, stop_strict_entries,
}
use gin_bear.Web.Lifecycle.Start.{stop_ends, stop_strict}
use gin_bear.Web.Lifecycle.Order.{stop_strict_entries_ind}
use gin_bear.Web.Lifecycle.Settled.{Stoppable, stop_strict_ind}

-- The context stays open, every attempt ends, and one begun here does not end with its context's error.
pub record Responsive (env : StopEnv) : Type 0 where
  pub open_at : (c : ℕ) → env.ctx_at c ≡ none
  pub open_before : (c : ℕ) → env.ctx_before c ≡ none
  pub open_after : (c : ℕ) → env.ctx_after c ≡ none
  pub old_ends : (c : ℕ) (text : String) → ¬ (env.wait_old c ≡ unfinished text)
  pub new_ends : (c : ℕ) (text : String) → ¬ (env.wait_new c ≡ unfinished text)
  pub on_its_own : (c : ℕ) (text : String) → ¬ (env.wait_new c ≡ finished_with text true)

module _ (env : StopEnv) (r : Responsive env) where
  waited_legacy-complete :
      (e : Entry) (w w' : Wait) (calls : List ℕ)
      → w' ≡ w
      → ((text : String) → ¬ (w' ≡ unfinished text))
      → (waited_legacy e w calls).complete ≡ true
  waited_legacy-complete e (unfinished text) w' calls h ends = absurd (ends text h)
  waited_legacy-complete e finished w' calls h ends = refl
  waited_legacy-complete e (finished_with text by_context) w' calls h ends = refl

  waited_new-complete :
      (e : Entry) (c : ℕ) (w : Wait) → env.wait_new c ≡ w → (waited_new e w).complete ≡ true
  waited_new-complete e c (unfinished text) h = absurd (r.new_ends c text h)
  waited_new-complete e c finished h = refl
  waited_new-complete e c (finished_with text true) h = absurd (r.on_its_own c text h)
  waited_new-complete e c (finished_with text false) h = refl

  new_attempt-complete : (e : Entry) → (new_attempt env e).complete ≡ true
  new_attempt-complete e =
      rw (r.open_before, new_attempt) (waited_new-complete e e.component _ refl)

  waited_old-complete :
      (e : Entry) (w : Wait) → env.wait_old e.component ≡ w → (waited_old env e w).complete ≡ true
  waited_old-complete e (unfinished text) h = absurd (r.old_ends e.component text h)
  waited_old-complete e finished h = refl
  waited_old-complete e (finished_with text true) h =
      rw (r.open_after, waited_old) (new_attempt-complete _)
  waited_old-complete e (finished_with text false) h = refl

  stop_with_context-complete :
      (e : Entry) (s : StopState) → (stop_with_context env e s).complete ≡ true
  stop_with_context-complete e stopping = waited_old-complete e _ refl
  stop_with_context-complete e pending = new_attempt-complete e
  stop_with_context-complete e retry_pending = new_attempt-complete e
  stop_with_context-complete e stopped_clean = new_attempt-complete e
  stop_with_context-complete e stopped_with_error = new_attempt-complete e

  stop_without_context-complete :
      (e : Entry) (b : Bool) → (stop_without_context env e b).complete ≡ true
  stop_without_context-complete e true =
      waited_legacy-complete e _ _ [] refl (r.old_ends e.component)
  stop_without_context-complete e false =
      rw (r.open_before, stop_without_context)
        (waited_legacy-complete _ _ _ _ refl (r.new_ends e.component))

  stop_strict_entry-complete : (e : Entry) → (stop_strict_entry env e).complete ≡ true
  unfolding stop_strict_entry
  stop_strict_entry-complete e = go e.shutdown
    where
      go : (s : Shutdown) → (stop_as env e s).complete ≡ true
      go with_context = stop_with_context-complete e e.stop_state
      go without_context = stop_without_context-complete e e.legacy_started
      go no_shutdown = refl

  stop_strict_entries-complete : (es : List Entry) → (stop_strict_entries env es).complete ≡ true
  stop_strict_entries-complete =
      stop_strict_entries_ind env (λ es s. s.complete ≡ true) refl (λ e es s c h. absurd (cc))
        (λ e es s c over h. h)
        (λ e es s text ctx on h. let is_open = r.open_at e.component in absurd (cc))
        (λ e es s c on t h. stop_strict_entry-complete e)

  -- Whatever earlier starts and stops have left, a strict `Stop` whose context stays open, whose
  -- attempts all end, and whose own attempts do not end with their context's error, stops the lifecycle.
  pub stop_strict-stopped :
      (l : Lifecycle) → Stoppable l → (stop_strict env l).lifecycle.phase ≡ is_stopped
  stop_strict-stopped l stoppable =
      stop_strict_ind (λ o. o.lifecycle.phase ≡ is_stopped) env l stoppable
        (rw (stop_strict_entries-complete l.components, stop_ends) refl)
