-- ===== src/Web/Lifecycle/Order.antt =====
-- The order of shutdowns of pkg/bear/lifecycle.go in strict mode.
use Prim.Native.String.{String}
use gin_bear.Base.{
  ℕ, ◌≡◌, refl, inl, inr, Bool, true, false, Bool-cases, Option, none, some, List, [], ◌∷◌, ◌++◌,
  if◌then◌else◌,
}
use gin_bear.Web.Lifecycle.{
  StopState, pending, stopping, retry_pending, stopped_clean, stopped_with_error, Shutdown,
  with_context, without_context, no_shutdown, Entry, StopEnv, Wait, unfinished, finished,
  finished_with, Turn, waited_new, new_attempt, waited_old, waited_legacy, stop_with_context,
  stop_without_context, stop_as, stop_strict_entry, Stops, is_passed, stop_next,
  stop_strict_entries, after_turn, shutdown_not_started, stays, is_settled,
}
use gin_bear.Web.Lifecycle.Start.{reset}

-- The first list is the second with some of its members left out.
pub data InOrder : List ℕ → List ℕ → Type 0 where
  in_empty : InOrder [] []
  in_skip : {y : ℕ} {xs ys : List ℕ} → InOrder xs ys → InOrder xs (y ∷ ys)
  in_keep : {x : ℕ} {xs ys : List ℕ} → InOrder xs ys → InOrder (x ∷ xs) (x ∷ ys)

pub InOrder-append :
    {xs ys xs' ys' : List ℕ} → InOrder xs ys → InOrder xs' ys' → InOrder (xs ++ xs') (ys ++ ys')
InOrder-append in_empty h = h
InOrder-append (in_skip i) h = in_skip (InOrder-append i h)
InOrder-append (in_keep i) h = in_keep (InOrder-append i h)

pub InOrder-more : (c : ℕ) {xs ys : List ℕ} → InOrder xs ys → InOrder xs (ys ++ c ∷ [])
InOrder-more c in_empty = in_skip in_empty
InOrder-more c (in_skip i) = in_skip (InOrder-more c i)
InOrder-more c (in_keep i) = in_keep (InOrder-more c i)

pub InOrder-nil : (ys : List ℕ) → InOrder [] ys
InOrder-nil [] = in_empty
InOrder-nil (y ∷ ys) = in_skip (InOrder-nil ys)

-- The components that are started and not yet stopped, the last one first.
abbrev pub to_stop : List Entry → List ℕ
to_stop [] = []
to_stop (e ∷ es) =
    let later = to_stop es in if is_passed e then later else later ++ e.component ∷ []

once : (c : ℕ) → InOrder (c ∷ []) (c ∷ [])
once c = in_keep in_empty

never : (c : ℕ) → InOrder [] (c ∷ [])
never c = in_skip in_empty

-- How an entry's turn ends: settled, or with an error and more to do; its shutdown is called once or
-- not at all.
pub data TurnOf (e : Entry) : Turn → Type 0 where
  settles :
      {e' : Entry} {err : Option String} {calls : List ℕ}
      → reset e' ≡ reset e
      → e'.started ≡ e.started
      → is_settled e'.stop_state ≡ true
      → InOrder calls (e.component ∷ [])
      → TurnOf e (record { entry = e'; err = err; complete = true; calls = calls })
  goes_on :
      {e' : Entry} {text : String} {calls : List ℕ}
      → reset e' ≡ reset e
      → e'.started ≡ e.started
      → InOrder calls (e.component ∷ [])
      → TurnOf e (record { entry = e'; err = some text; complete = false; calls = calls })

module _ (env : StopEnv) (e : Entry) where
  abbrev unless_ended : Option String → Turn → Turn
  unless_ended o t = elim o [ some text ↦ stays e text [] | none ↦ t ]

  unless_ended-TurnOf : (o : Option String) (t : Turn) → TurnOf e t → TurnOf e (unless_ended o t)
  unless_ended-TurnOf (some text) t h = goes_on refl refl (never _)
  unless_ended-TurnOf none t h = h

  waited_new-TurnOf : (w : Wait) → TurnOf e (waited_new e w)
  waited_new-TurnOf (unfinished text) = goes_on refl refl (once _)
  waited_new-TurnOf finished = settles refl refl refl (once _)
  waited_new-TurnOf (finished_with text true) = goes_on refl refl (once _)
  waited_new-TurnOf (finished_with text false) = settles refl refl refl (once _)

  new_attempt-TurnOf : TurnOf e (new_attempt env e)
  new_attempt-TurnOf = unless_ended-TurnOf (env.ctx_before e.component) _ (waited_new-TurnOf _)

  waited_legacy-TurnOf :
      (e' : Entry) (w : Wait) (calls : List ℕ)
      → reset e' ≡ reset e
      → e'.started ≡ e.started
      → InOrder calls (e.component ∷ [])
      → TurnOf e (waited_legacy e' w calls)
  waited_legacy-TurnOf e' (unfinished text) calls same started h = goes_on same started h
  waited_legacy-TurnOf e' finished calls same started h = settles same started refl h
  waited_legacy-TurnOf e' (finished_with text by_context) calls same started h =
      settles same started refl h

  stop_without_context-TurnOf : (b : Bool) → TurnOf e (stop_without_context env e b)
  stop_without_context-TurnOf true = waited_legacy-TurnOf e _ [] refl refl (never _)
  stop_without_context-TurnOf false =
      unless_ended-TurnOf (env.ctx_before e.component) _
        (waited_legacy-TurnOf _ _ _ refl refl (once _))

module _ (env : StopEnv) (e : Entry) where
  retried-TurnOf :
      (o : Option String) (text : String) (t : Turn)
      → TurnOf e t
      → TurnOf e (elim o [
        | some late ↦ stays (record e { stop_state = retry_pending }) text []
        | none ↦ t
      ])
  retried-TurnOf (some late) text t h = goes_on refl refl (never _)
  retried-TurnOf none text t h = h

  pending-TurnOf : {t : Turn} → TurnOf (record e { stop_state = retry_pending }) t → TurnOf e t
  pending-TurnOf (settles same started settled h) = settles same started settled h
  pending-TurnOf (goes_on same started h) = goes_on same started h

  waited_old-TurnOf : (w : Wait) → TurnOf e (waited_old env e w)
  waited_old-TurnOf (unfinished text) = goes_on refl refl (never _)
  waited_old-TurnOf finished = settles refl refl refl (never _)
  waited_old-TurnOf (finished_with text true) =
      retried-TurnOf (env.ctx_after e.component) text _ (pending-TurnOf (new_attempt-TurnOf env _))
  waited_old-TurnOf (finished_with text false) = settles refl refl refl (never _)

  stop_with_context-TurnOf : (state : StopState) → TurnOf e (stop_with_context env e state)
  stop_with_context-TurnOf stopping = waited_old-TurnOf _
  stop_with_context-TurnOf pending = new_attempt-TurnOf env e
  stop_with_context-TurnOf retry_pending = new_attempt-TurnOf env e
  stop_with_context-TurnOf stopped_clean = new_attempt-TurnOf env e
  stop_with_context-TurnOf stopped_with_error = new_attempt-TurnOf env e

  pub stop_strict_entry-TurnOf : TurnOf e (stop_strict_entry env e)
  unfolding stop_strict_entry
  stop_strict_entry-TurnOf = go e.shutdown
    where
      go : (s : Shutdown) → TurnOf e (stop_as env e s)
      go with_context = stop_with_context-TurnOf e.stop_state
      go without_context = stop_without_context-TurnOf env e e.legacy_started
      go no_shutdown = settles refl refl refl (never _)

-- Induction over the loop of a stop, from the last entry on.
module _ (env : StopEnv) (P : List Entry → Stops → Type 0) where
  pub stop_strict_entries_ind :
      P [] (record { entries = []; errs = []; complete = true; calls = [] })
      → ((e : Entry) (es : List Entry) (s : Stops)
          → s.complete ≡ false
          → P es s
          → P (e ∷ es) (record s { entries = e ∷ s.entries }))
      → ((e : Entry) (es : List Entry) (s : Stops)
          → s.complete ≡ true
          → is_passed e ≡ true
          → P es s
          → P (e ∷ es) (record s { entries = e ∷ s.entries }))
      → ((e : Entry) (es : List Entry) (s : Stops) (text : String)
          → env.ctx_at e.component ≡ some text
          → is_passed e ≡ false
          → P es s
          → P (e ∷ es) (record {
            entries = e ∷ s.entries;
            errs = s.errs ++ shutdown_not_started e.component text ∷ [];
            complete = false;
            calls = s.calls;
          }))
      → ((e : Entry) (es : List Entry) (s : Stops)
          → s.complete ≡ true
          → is_passed e ≡ false
          → TurnOf e (stop_strict_entry env e)
          → P es s
          → P (e ∷ es) (after_turn (stop_strict_entry env e) s))
      → (es : List Entry) → P es (stop_strict_entries env es)
  unfolding stop_strict_entries
  stop_strict_entries_ind nil left passed cut turned [] = nil
  stop_strict_entries_ind nil left passed cut turned (e ∷ es) =
      go (stop_strict_entries env es) (stop_strict_entries_ind nil left passed cut turned es)
    where
      reached :
          (s : Stops)
          → s.complete ≡ true
          → is_passed e ≡ false
          → P es s
          → (o : Option String) → env.ctx_at e.component ≡ o
          → P (e ∷ es) (elim o [
            | some text ↦ record {
              entries = e ∷ s.entries;
              errs = s.errs ++ shutdown_not_started e.component text ∷ [];
              complete = false;
              calls = s.calls;
            }
            | none ↦ after_turn (stop_strict_entry env e) s
          ])
      reached s done on h (some text) ctx = cut e es s text ctx on h
      reached s done on h none ctx = turned e es s done on (stop_strict_entry-TurnOf env e) h

      ctx_ended : Stops → Option String → Stops
      ctx_ended s o = elim o [
        | some text ↦ record {
          entries = e ∷ s.entries;
          errs = s.errs ++ shutdown_not_started e.component text ∷ [];
          complete = false;
          calls = s.calls;
        }
        | none ↦ after_turn (stop_strict_entry env e) s
      ]

      chosen :
          (s : Stops)
          → s.complete ≡ true
          → P es s
          → (b : Bool) → is_passed e ≡ b
          → P (e ∷ es) (
              if b
              then record s { entries = e ∷ s.entries }
              else ctx_ended s (env.ctx_at e.component))
      chosen s done h true over = passed e es s done over h
      chosen s done h false on = reached s done on h _ refl

      begun :
          (s : Stops)
          → P es s
          → (b : Bool) → s.complete ≡ b
          → P (e ∷ es) (if b then stop_next env e s else record s { entries = e ∷ s.entries })
      begun s h true done = chosen s done h _ refl
      begun s h false cut_off = left e es s cut_off h

      go :
          (s : Stops)
          → P es s
          → P
              (e ∷ es)
              (if s.complete then stop_next env e s else record s { entries = e ∷ s.entries })
      go s h = begun s h _ refl

-- A stop calls shutdowns of components that are started and not yet stopped, each at most once, a
-- component registered later before one registered earlier.
pub stop_strict_entries-InOrder :
    (env : StopEnv) (es : List Entry) → InOrder (stop_strict_entries env es).calls (to_stop es)
stop_strict_entries-InOrder env =
    stop_strict_entries_ind env (λ es s. InOrder s.calls (to_stop es)) in_empty
      (λ e es s c h. kept e es h) (λ e es s c over h. rw over h) (λ e es s text c on h. kept e es h)
      (λ e es s c on t h. rw on (InOrder-append h (called t)))
  where
    called : {e : Entry} {t : Turn} → TurnOf e t → InOrder t.calls (e.component ∷ [])
    called (settles same started settled h) = h
    called (goes_on same started h) = h

    kept :
        (e : Entry) (es : List Entry) {calls : List ℕ}
        → InOrder calls (to_stop es)
        → InOrder calls (to_stop (e ∷ es))
    kept e es h = elim (Bool-cases (is_passed e)) [
      | inl over ↦ rw over h
      | inr on ↦ rw on (InOrder-more _ h)
    ]
