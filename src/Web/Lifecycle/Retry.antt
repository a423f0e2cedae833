-- ===== src/Web/Lifecycle/Retry.antt =====
-- A strict start of pkg/bear/lifecycle.go that fails.

use gin_bear.Base.{
  ℕ, ◌≡◌, ◌≢◌, refl, sym, subst, ap, ◌∙◌, inl, inr, ◌&&◌, ◌||◌, not, Bool, true, false, Bool-cases,
  Option, none, some, List, [], ◌∷◌, map, All, both, if◌then◌else◌,
}
use gin_bear.Web.Lifecycle.{
  Entry, is_new, is_started, is_stopped, Problem, Lifecycle, StopEnv, Stops, stop_strict_entries,
}
use gin_bear.Web.Lifecycle.Start.{
  StartEnv, start_entries, reset, has_prestarted, is_nil, returns, Outcome, start_ends, start_in,
  start_strict,
}
use gin_bear.Web.Lifecycle.Order.{InOrder, to_stop, stop_strict_entries-InOrder}
use gin_bear.Web.Lifecycle.Gone.{Gone, stop_strict_entries-Gone}
use gin_bear.Web.Lifecycle.Settled.{
  Settled, stop_strict_entries-StopsWell, reset-stop_strict_entries,
}
use gin_bear.Web.Lifecycle.Begun.{
  start_entries_ind, reset-start_entries, Begins, start_entries-Begins,
}

-- An entry that no start has touched.
abbrev pub Fresh : Entry → Type 0
Fresh e = e ≡ record (reset e) { started = e.prestarted }

either_false : (a b : Bool) → (a || b) ≡ false → (a ≡ false) × (b ≡ false)
either_false true b h = absurd (cc)
either_false false b h = (refl, h)

-- A fresh entry that is not prestarted is what a reset makes of it.
reset_head : (e : Entry) → Fresh e → e.prestarted ≡ false → reset e ≡ e
reset_head e fresh h = ap (λ b. record (reset e) { started = b }) (sym h) ∙ sym fresh

not_prestarted : (e : Entry) → Fresh e → (e.started && e.prestarted) ≡ false → e.prestarted ≡ false
not_prestarted e fresh h = elim (Bool-cases e.prestarted) [
  | inr other ↦ other
  | inl is_true ↦
      let started : e.started ≡ true = ap (λ x. x.started) fresh ∙ is_true in
      absurd (let h' = rw started at (rw is_true at h) in cc)
]

reset_cons :
    (e : Entry) (es : List Entry) → reset e ≡ e → map reset es ≡ es → map reset (e ∷ es) ≡ e ∷ es
reset_cons e es head rest = ap (λ x. x ∷ map reset es) head ∙ ap (λ xs. e ∷ xs) rest

map-reset-Fresh : (es : List Entry) → All Fresh es → has_prestarted es ≡ false → map reset es ≡ es
map-reset-Fresh [] fresh h = refl
map-reset-Fresh (e ∷ es) (fresh, later) h =
    let (head, rest) = either_false _ _ h in
    reset_cons e es (reset_head e fresh (not_prestarted e fresh head))
      (map-reset-Fresh es later rest)

map-reset-begun :
    (env : StartEnv) (es : List Entry)
    → All Fresh es
    → has_prestarted (start_entries env es).entries ≡ false
    → map reset es ≡ es
map-reset-begun env =
    start_entries_ind env
      (λ es s. All Fresh es → has_prestarted s.entries ≡ false → map reset es ≡ es)
      (λ fresh h. refl) (λ e es p fresh h. map-reset-Fresh (e ∷ es) fresh h)
      (λ e es p (fresh, later) h.
        let (head, rest) = either_false _ _ h in
        reset_cons e es (reset_head e fresh head) (map-reset-Fresh es later rest))
      (λ e es s inits i ih (fresh, later) h.
        let (head, rest) = either_false _ _ h in
        reset_cons e es (reset_head e fresh head) (ih later rest))
      (λ e es s inactive ih (fresh, later) h.
        let (head, rest) = either_false _ _ h in
        reset_cons e es (reset_head e fresh (not_prestarted e fresh head)) (ih later rest))

-- A rollback that does not leave a start to be retried: it has stopped every component, or it was cut
-- off and reports an error.
pub data RolledBack (env : StopEnv) (started : List Entry) (o : Outcome) (errs : List Problem)
    : Type 0 where
  wholly :
      {ended : List Problem}
      → o.lifecycle.phase ≡ is_stopped
      → All Settled o.lifecycle.components
      → Gone env started o.lifecycle.components o.calls ended
      → RolledBack env started o errs
  in_part :
      o.lifecycle.phase ≡ is_started
      → errs ≢ []
      → InOrder o.calls (to_stop started)
      → RolledBack env started o errs

-- How a start of a new lifecycle ends.
pub data StartEnds (env : StartEnv) (l : Lifecycle) : Outcome → Type 0 where
  runs :
      {o : Outcome}
      → Begins env l.components o.lifecycle.components o.inits none
      → o.lifecycle.phase ≡ is_started
      → o.result ≡ returns none []
      → o.calls ≡ []
      → StartEnds env l o
  takes_back :
      {o : Outcome} (p : Problem) (started ended : List Entry) (errs : List Problem)
      → Begins env l.components started o.inits (some p)
      → Gone env.rollback started ended o.calls errs
      → o.lifecycle ≡ record l { start_err = some p; start_retryable = true; stop_err = [] }
      → o.result ≡ returns (some p) []
      → StartEnds env l o
  gives_up :
      {o : Outcome} (p : Problem) (started : List Entry) (errs : List Problem)
      → Begins env l.components started o.inits (some p)
      → o.lifecycle.start_retryable ≡ false
      → RolledBack env.rollback started o errs
      → o.result ≡ returns (some p) errs
      → StartEnds env l o

module _ (env : StartEnv) (l : Lifecycle) (fresh : All Fresh l.components)
    (new : l.phase ≡ is_new) where
  abbrev begun_entries : List Entry
  begun_entries = (start_entries env l.components).entries

  abbrev inits : List ℕ
  inits = (start_entries env l.components).inits

  abbrev stops : Stops
  stops = stop_strict_entries env.rollback begun_entries

  taken_back :
      has_prestarted begun_entries ≡ false
      → (p : Problem)
      → ◌≡◌ {A = Lifecycle}
          (record l {
            components = map reset stops.entries;
            phase = is_new;
            start_err = some p;
            start_retryable = true;
            stop_err = [];
          })
          (record l { start_err = some p; start_retryable = true; stop_err = [] })
  taken_back h p =
      let same : map reset stops.entries ≡ l.components =
        reset-stop_strict_entries env.rollback begun_entries
        ∙ reset-start_entries env l.components
        ∙ map-reset-begun env l.components fresh h in
      ap
        (λ es. record l {
          components = es;
          phase = is_new;
          start_err = some p;
          start_retryable = true;
          stop_err = [];
        })
        same
      ∙ ap
          (λ phase. record l {
            phase = phase;
            start_err = some p;
            start_retryable = true;
            stop_err = [];
          })
          (sym new)

  given_up :
      (b : Bool)
      → stops.complete ≡ b
      → (p : Problem) → Begins env l.components begun_entries inits (some p)
      → StartEnds env l (record {
        lifecycle = record l {
          components = stops.entries;
          phase = if b then is_stopped else is_started;
          start_err = some p;
          start_retryable = false;
          stop_err = stops.errs;
        };
        result = returns (some p) stops.errs;
        inits = inits;
        calls = stops.calls;
      })
  given_up true done p begins =
      gives_up p begun_entries stops.errs begins refl
        (wholly refl ((stop_strict_entries-StopsWell env.rollback begun_entries).0 done)
          (stop_strict_entries-Gone env.rollback begun_entries done))
        refl
  given_up false cut_off p begins =
      gives_up p begun_entries stops.errs begins refl
        (in_part refl ((stop_strict_entries-StopsWell env.rollback begun_entries).1 cut_off)
          (stop_strict_entries-InOrder env.rollback begun_entries))
        refl

  nil_errs : (ps : List Problem) → is_nil ps ≡ true → ps ≡ []
  nil_errs [] h = refl
  nil_errs (p ∷ ps) h = absurd (cc)

  not-true : (b : Bool) → not b ≡ true → b ≡ false
  not-true true h = absurd (cc)
  not-true false h = refl

  failed_ends :
      (p : Problem)
      → Begins env l.components begun_entries inits (some p)
      → StartEnds env l (start_ends env l begun_entries inits (some p))
  failed_ends p begins = go _ refl
    where
      ended : Bool → Lifecycle
      ended b =
          if b
          then record l {
            components = map reset stops.entries;
            phase = is_new;
            start_err = some p;
            start_retryable = true;
            stop_err = [];
          }
          else record l {
            components = stops.entries;
            phase = if stops.complete then is_stopped else is_started;
            start_err = some p;
            start_retryable = false;
            stop_err = stops.errs;
          }

      go :
          (b : Bool)
          → (stops.complete && is_nil stops.errs && not (has_prestarted begun_entries)) ≡ b
          → StartEnds env l (record {
            lifecycle = ended b;
            result = returns (some p) stops.errs;
            inits = inits;
            calls = stops.calls;
          })
      go false h = given_up _ refl p begins
      go true h =
          let (first, none_prestarted) = both _ _ h in
          let (done, clean) = both _ _ first in
          takes_back p begun_entries stops.entries _ begins
            (stop_strict_entries-Gone env.rollback begun_entries done)
            (taken_back (not-true _ none_prestarted) p) (ap (returns (some p)) (nil_errs _ clean))

  -- A strict `Start` of a new lifecycle whose components no start has touched calls `Init` of the
  -- active ones in their order until one fails or the context is over. If none does, every active
  -- component is started, and no shutdown is called. Otherwise the components begun so far, the failed
  -- one included, are shut down, last first, in a stop as `Gone` describes it; and then the call either
  -- leaves every component as it was, new and ready to be started again, or it fails for good, with
  -- every started component stopped or with an error of a rollback that was cut off returned.
  pub start_strict-StartEnds : StartEnds env l (start_strict env l)
  unfolding start_strict
  start_strict-StartEnds =
      subst (λ phase. StartEnds env l (start_in env l phase)) (sym new)
        (ended _ (start_entries-Begins env l.components))
    where
      ended :
          (o : Option Problem)
          → Begins env l.components begun_entries inits o
          → StartEnds env l (start_ends env l begun_entries inits o)
      ended none begins = runs begins refl refl refl
      ended (some p) begins = failed_ends p begins
