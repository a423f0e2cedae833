-- ===== src/Web/Lifecycle/Begun.antt =====
-- The loop of a strict start of pkg/bear/lifecycle.go.
use Prim.Native.String.{String}
use gin_bear.Base.{
  ℕ, ◌≡◌, refl, ap, Bool, true, false, Option, none, some, List, [], ◌∷◌, map, if◌then◌else◌,
}
use gin_bear.Web.Lifecycle.{pending, Entry, Problem, init_not_started, init_failed}
use gin_bear.Web.Lifecycle.Start.{
  StartEnv, Starts, begun, go_on, initialized, start_active, start_next, start_entries, reset,
}
use gin_bear.Web.Lifecycle.Order.{InOrder, in_empty, in_skip, in_keep}

-- Induction over the loop of a start.
module _ (env : StartEnv) (P : List Entry → Starts → Type 0) where
  pub start_entries_ind :
      P [] (record { entries = []; failure = none; inits = [] })
      → ((e : Entry) (es : List Entry) (p : Problem)
          → P (e ∷ es) (record { entries = e ∷ es; failure = some p; inits = [] }))
      → ((e : Entry) (es : List Entry) (p : Problem)
          → P
              (e ∷ es)
              (record { entries = begun e ∷ es; failure = some p; inits = e.component ∷ [] }))
      → ((e : Entry) (es : List Entry) (s : Starts) (inits : List ℕ)
          → InOrder inits (e.component ∷ [])
          → P es s
          → P (e ∷ es) (go_on (begun e) inits s))
      → ((e : Entry) (es : List Entry) (s : Starts)
          → e.active ≡ false
          → P es s
          → P (e ∷ es) (go_on e [] s))
      → (es : List Entry) → P es (start_entries env es)
  unfolding start_entries
  start_entries_ind nil cut failed began idle [] = nil
  start_entries_ind nil cut failed began idle (e ∷ es) =
      go _ (start_entries_ind nil cut failed began idle es) (env.ctx_err e.component)
    where
      inited :
          (s : Starts) → P es s → (o : Option String) → P (e ∷ es) (initialized (begun e) o es s)
      inited s h (some text) = failed e es _
      inited s h none = began e es s _ (in_keep in_empty) h

      active :
          (s : Starts)
          → P es s
          → (b : Bool)
          → P (e ∷ es) (
              if b then initialized (begun e) (env.init e.component) es s else go_on (begun e) [] s)
      active s h true = inited s h _
      active s h false = began e es s [] (in_skip in_empty) h

      chosen :
          (s : Starts)
          → P es s
          → (b : Bool) → e.active ≡ b
          → P (e ∷ es) (if b then start_active env e es s else go_on e [] s)
      chosen s h true is_active = active s h e.initializes
      chosen s h false inactive = idle e es s inactive h

      go : (s : Starts) → P es s → (o : Option String) → P (e ∷ es) (start_next env e es o s)
      go s h (some text) = cut e es _
      go s h none = chosen s h _ refl

-- A start changes the progress of entries only.
pub reset-start_entries :
    (env : StartEnv) (es : List Entry) → map reset (start_entries env es).entries ≡ map reset es
reset-start_entries env =
    start_entries_ind env (λ es s. map reset s.entries ≡ map reset es) refl (λ e es p. refl)
      (λ e es p. refl) (λ e es s inits i h. ap (λ xs. reset e ∷ xs) h)
      (λ e es s inactive h. ap (λ xs. reset e ∷ xs) h)

-- An entry that a start has begun: what a reset leaves of it is as before, and nothing of an earlier
-- stop is left.
pub record Begun (e e' : Entry) : Type 0 where
  pub is_on : e'.started ≡ true
  pub not_stopped : e'.stopped ≡ false
  pub not_stopping : e'.stop_state ≡ pending
  pub no_error : e'.terminal_err ≡ none
  pub not_called : e'.legacy_started ≡ false
  pub same : reset e' ≡ reset e

begun-Begun : (e : Entry) → Begun e (begun e)
begun-Begun e = record {
  is_on = refl;
  not_stopped = refl;
  not_stopping = refl;
  no_error = refl;
  not_called = refl;
  same = refl;
}

-- The entries before and after a start, its calls of `Init`, and the failure that ended it. Each active
-- component is begun in its turn, and initialized if it can be, until an `Init` returns an error or the
-- context is over.
pub data Begins (env : StartEnv) : List Entry → List Entry → List ℕ → Option Problem → Type 0 where
  begins_none : Begins env [] [] [] none
  context_over :
      {e : Entry} {es : List Entry} (text : String)
      → env.ctx_err e.component ≡ some text
      → Begins env (e ∷ es) (e ∷ es) [] (some (init_not_started e.component text))
  init_fails :
      {e e' : Entry} {es : List Entry} (text : String)
      → e.active ≡ true
      → e.initializes ≡ true
      → env.init e.component ≡ some text
      → Begun e e'
      → Begins env (e ∷ es) (e' ∷ es) (e.component ∷ []) (some (init_failed e.component text))
  init_succeeds :
      {e e' : Entry} {es es' : List Entry} {inits : List ℕ} {failure : Option Problem}
      → e.active ≡ true
      → e.initializes ≡ true
      → env.init e.component ≡ none
      → Begun e e'
      → Begins env es es' inits failure
      → Begins env (e ∷ es) (e' ∷ es') (e.component ∷ inits) failure
  needs_no_init :
      {e e' : Entry} {es es' : List Entry} {inits : List ℕ} {failure : Option Problem}
      → e.active ≡ true
      → e.initializes ≡ false
      → Begun e e'
      → Begins env es es' inits failure
      → Begins env (e ∷ es) (e' ∷ es') inits failure
  not_active :
      {e : Entry} {es es' : List Entry} {inits : List ℕ} {failure : Option Problem}
      → e.active ≡ false
      → Begins env es es' inits failure
      → Begins env (e ∷ es) (e ∷ es') inits failure

module _ (env : StartEnv) (e : Entry) (es : List Entry) where
  abbrev BeginsAs : Starts → Type 0
  BeginsAs s = Begins env (e ∷ es) s.entries s.inits s.failure

  start_next-Begins :
      (s : Starts)
      → Begins env es s.entries s.inits s.failure
      → BeginsAs (start_next env e es (env.ctx_err e.component) s)
  start_next-Begins s h = go _ refl
    where
      inited :
          e.active ≡ true
          → e.initializes ≡ true
          → (o : Option String) → env.init e.component ≡ o
          → BeginsAs (initialized (begun e) o es s)
      inited on inits (some text) k = init_fails text on inits k (begun-Begun e)
      inited on inits none k = init_succeeds on inits k (begun-Begun e) h

      active :
          e.active ≡ true
          → (b : Bool) → e.initializes ≡ b
          → BeginsAs (
              if b then initialized (begun e) (env.init e.component) es s else go_on (begun e) [] s)
      active on true inits = inited on inits _ refl
      active on false plain = needs_no_init on plain (begun-Begun e) h

      chosen :
          (b : Bool) → e.active ≡ b → BeginsAs (if b then start_active env e es s else go_on e [] s)
      chosen true on = active on _ refl
      chosen false off = not_active off h

      go : (o : Option String) → env.ctx_err e.component ≡ o → BeginsAs (start_next env e es o s)
      go (some text) over = context_over text over
      go none open_still = chosen _ refl

pub start_entries-Begins :
    (env : StartEnv) (es : List Entry)
    → Begins env es
        (start_entries env es).entries
        (start_entries env es).inits
        (start_entries env es).failure
unfolding start_entries
start_entries-Begins env [] = begins_none
start_entries-Begins env (e ∷ es) = start_next-Begins env e es _ (start_entries-Begins env es)
