-- ===== src/Web/Lifecycle/Once.antt =====
-- Histories of `Start` and `Stop` outside strict mode, of pkg/bear/lifecycle.go.
use Prim.Native.String.{String}
use gin_bear.Base.{
  ℕ, ◌≡◌, refl, sym, subst, ap, ◌∙◌, ◌&&◌, not, Bool, true, false, Option, none, some, List, [],
  ◌∷◌, ◌++◌, if◌then◌else◌,
}
use gin_bear.Web.Lifecycle.{
  Shutdown, with_context, without_context, no_shutdown, Entry, Phase, is_new, is_starting,
  is_started, is_stopping, is_stopped, Problem, Lifecycle,
}
use mathlib.Core.List.{append-nil}
use gin_bear.Web.Lifecycle.Start.{Outcome}
use gin_bear.Web.Lifecycle.Legacy.{
  LegacyEnv, LegacyStops, run_worker, stop_component, stop_round, is_taken,
  stop_lifecycle_components, LegacyStarts, marked, init_ends, start_components, start_ends,
  start_in, start_legacy, stop_in, stop_legacy,
}
use gin_bear.Web.Lifecycle.Order.{
  InOrder, in_empty, in_skip, in_keep, InOrder-append, InOrder-nil, InOrder-more,
}

-- The components, the last one first.
abbrev pub backwards : List Entry → List ℕ
backwards [] = []
backwards (e ∷ es) = backwards es ++ e.component ∷ []

run_worker-InOrder :
    (env : LegacyEnv) (c : ℕ) (o : Option String) → InOrder (run_worker env c o).1 (c ∷ [])
run_worker-InOrder env c (some text) = in_skip in_empty
run_worker-InOrder env c none = in_keep in_empty

stop_component-InOrder :
    (env : LegacyEnv) (e : Entry) (s : Shutdown)
    → InOrder (stop_component env e s).1 (e.component ∷ [])
stop_component-InOrder env e with_context = run_worker-InOrder env _ _
stop_component-InOrder env e without_context = run_worker-InOrder env _ _
stop_component-InOrder env e no_shutdown = in_skip in_empty

stop_round-InOrder :
    (env : LegacyEnv) (e : Entry) (o : Option String) (s : LegacyStops) (ys : List ℕ)
    → InOrder s.calls ys
    → InOrder (stop_round env e o s).calls (ys ++ e.component ∷ [])
stop_round-InOrder env e (some text) s ys h = InOrder-more _ h
stop_round-InOrder env e none s ys h = InOrder-append h (stop_component-InOrder env e e.shutdown)

stop_lifecycle_components-InOrder :
    (env : LegacyEnv) (es : List Entry)
    → InOrder (stop_lifecycle_components env es).calls (backwards es)
unfolding stop_lifecycle_components
stop_lifecycle_components-InOrder env [] = in_empty
stop_lifecycle_components-InOrder env (e ∷ es) = go _ (stop_lifecycle_components-InOrder env es)
  where
    chosen :
        (s : LegacyStops) (b : Bool)
        → InOrder s.calls (backwards es)
        → InOrder
            (if b then stop_round env e (env.ctx_at e.component) s else s).calls
            (backwards es ++ e.component ∷ [])
    chosen s true h = stop_round-InOrder env e _ s _ h
    chosen s false h = InOrder-more _ h

    go :
        (s : LegacyStops)
        → InOrder s.calls (backwards es)
        → InOrder
            (if is_taken e && not s.cut
              then stop_round env e (env.ctx_at e.component) s
              else s).calls
            (backwards es ++ e.component ∷ [])
    go s h = chosen s _ h

backwards-start_components :
    (env : LegacyEnv) (es : List Entry) → backwards (start_components env es).entries ≡ backwards es
unfolding start_components
backwards-start_components env [] = refl
backwards-start_components env (e ∷ es) = go _ (backwards-start_components env es)
  where
    more :
        (s : LegacyStarts)
        → backwards s.entries ≡ backwards es
        → backwards s.entries ++ e.component ∷ [] ≡ backwards es ++ e.component ∷ []
    more s h = ap (λ ys. ys ++ e.component ∷ []) h

    inited :
        (s : LegacyStarts)
        → backwards s.entries ≡ backwards es
        → (o : Option String)
        → backwards (init_ends e o es s).entries ≡ backwards es ++ e.component ∷ []
    inited s h (some text) = refl
    inited s h none = more s h

    chosen :
        (s : LegacyStarts)
        → backwards s.entries ≡ backwards es
        → (idle initializes : Bool)
        → backwards
            (if idle
              then record s { entries = e ∷ s.entries }
              else (if initializes
                  then init_ends e (env.init e.component) es s
                  else marked e [] s)).entries
          ≡ backwards es ++ e.component ∷ []
    chosen s h true initializes = more s h
    chosen s h false true = inited s h _
    chosen s h false false = more s h

    go :
        (s : LegacyStarts)
        → backwards s.entries ≡ backwards es
        → backwards
            (if not e.active
              then record s { entries = e ∷ s.entries }
              else (if e.initializes
                  then init_ends e (env.init e.component) es s
                  else marked e [] s)).entries
          ≡ backwards es ++ e.component ∷ []
    go s h = chosen s h _ _

-- A call of the lifecycle.
pub data Call : Type 0 where
  starts stops : LegacyEnv → Call

abbrev pub call : Call → Lifecycle → Outcome
call (starts env) l = start_legacy env l
call (stops env) l = stop_legacy env l

-- The shutdowns that a sequence of calls makes.
abbrev pub all_shutdowns : List Call → Lifecycle → List ℕ
all_shutdowns [] l = []
all_shutdowns (c ∷ cs) l = (call c l).calls ++ all_shutdowns cs (call c l).lifecycle

-- A call makes no shutdown and keeps the components, or it is the last that makes any.
data CallEnds (l : Lifecycle) (o : Outcome) : Type 0 where
  silent : o.calls ≡ [] → backwards o.lifecycle.components ≡ backwards l.components → CallEnds l o
  final : InOrder o.calls (backwards l.components) → o.lifecycle.phase ≡ is_stopped → CallEnds l o

start_in-CallEnds :
    (env : LegacyEnv) (l : Lifecycle) (phase : Phase) → CallEnds l (start_in env l phase)
start_in-CallEnds env l is_stopped = silent refl refl
start_in-CallEnds env l is_started = silent refl refl
start_in-CallEnds env l is_starting = silent refl refl
start_in-CallEnds env l is_stopping = silent refl refl
start_in-CallEnds env l is_new =
    go (start_components env l.components) (backwards-start_components env l.components)
  where
    ended :
        (es : List Entry) (inits : List ℕ)
        → backwards es ≡ backwards l.components
        → (o : Option Problem) → CallEnds l (start_ends env l es inits o)
    ended es inits same none = silent refl same
    ended es inits same (some p) =
        final
          (subst (λ ys. InOrder (stop_lifecycle_components env es).calls ys) same
            (stop_lifecycle_components-InOrder env es))
          refl

    go :
        (s : LegacyStarts)
        → backwards s.entries ≡ backwards l.components
        → CallEnds l (start_ends env l s.entries s.inits s.failure)
    go s same = ended s.entries s.inits same s.failure

stop_in-CallEnds :
    (env : LegacyEnv) (l : Lifecycle) (phase : Phase) → CallEnds l (stop_in env l phase)
stop_in-CallEnds env l is_stopped = silent refl refl
stop_in-CallEnds env l is_starting = silent refl refl
stop_in-CallEnds env l is_stopping = silent refl refl
stop_in-CallEnds env l is_new = final (stop_lifecycle_components-InOrder env l.components) refl
stop_in-CallEnds env l is_started = final (stop_lifecycle_components-InOrder env l.components) refl

call-CallEnds : (c : Call) (l : Lifecycle) → CallEnds l (call c l)
unfolding start_legacy stop_legacy
call-CallEnds (starts env) l = start_in-CallEnds env l l.phase
call-CallEnds (stops env) l = stop_in-CallEnds env l l.phase

-- A stopped lifecycle stays as it is.
call_stopped :
    (c : Call) (l : Lifecycle)
    → l.phase ≡ is_stopped
    → ((call c l).calls ≡ []) × ((call c l).lifecycle ≡ l)
unfolding start_legacy stop_legacy
call_stopped (starts env) l h =
    subst (λ phase. ((start_in env l phase).calls ≡ []) × ((start_in env l phase).lifecycle ≡ l))
      (sym h) (refl, refl)
call_stopped (stops env) l h =
    subst (λ phase. ((stop_in env l phase).calls ≡ []) × ((stop_in env l phase).lifecycle ≡ l))
      (sym h) (refl, refl)

all_shutdowns_stopped :
    (cs : List Call) (l : Lifecycle) → l.phase ≡ is_stopped → all_shutdowns cs l ≡ []
all_shutdowns_stopped [] l h = refl
all_shutdowns_stopped (c ∷ cs) l h =
    let (no_calls, same) = call_stopped c l h in
    ap (λ xs. xs ++ all_shutdowns cs (call c l).lifecycle) no_calls
    ∙ all_shutdowns_stopped cs (call c l).lifecycle (ap (λ x. x.phase) same ∙ h)

-- Outside strict mode, all the starts and stops that are ever made call the shutdown of each component
-- at most once altogether, and that of a component registered later before that of one registered
-- earlier.
pub all_shutdowns-InOrder :
    (cs : List Call) (l : Lifecycle) → InOrder (all_shutdowns cs l) (backwards l.components)
all_shutdowns-InOrder [] l = InOrder-nil _
all_shutdowns-InOrder (c ∷ cs) l =
    go (call c l) (call-CallEnds c l) (all_shutdowns-InOrder cs (call c l).lifecycle)
  where
    go :
        (o : Outcome)
        → CallEnds l o
        → InOrder (all_shutdowns cs o.lifecycle) (backwards o.lifecycle.components)
        → InOrder (o.calls ++ all_shutdowns cs o.lifecycle) (backwards l.components)
    go o (silent no_calls same) h =
        subst (λ xs. InOrder (xs ++ all_shutdowns cs o.lifecycle) (backwards l.components))
          (sym no_calls) (subst (λ ys. InOrder (all_shutdowns cs o.lifecycle) ys) same h)
    go o (final i stopped) h =
        subst (λ xs. InOrder xs (backwards l.components))
          (sym (
            ap (λ xs. o.calls ++ xs) (all_shutdowns_stopped cs o.lifecycle stopped)
            ∙ append-nil o.calls))
          i
