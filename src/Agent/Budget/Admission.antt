-- ===== src/Agent/Budget/Admission.antt =====
-- The histories of begun and ended runs at the admission gate of tools.go.
use Prim.Native.String.{String}
use text.Mathlib.Text.{◌==◌}
use text.Mathlib.TextEquality.{eq_iff}
use gin_bear.Base.{
  ℕ, ◌+◌, ◌≡◌, refl, sym, ap, subst, ◌∙◌, inl, inr, Bool, true, false, Bool-cases, Option, none,
  some, List, [], ◌∷◌, if◌then◌else◌, arith,
}
use gin_bear.Base.Int.{ℤ, pos, leb_ℤ, ◌≤ℤ◌, ◌+ℤ◌, ◌-ℤ◌, InRange, wrap, add64, sub64}
use gin_bear.Agent.Budget.{
  Budget, Counters, Gate, Refusal, too_many_runs, quota_exhausted, with_defaults, positive_or,
  new_gate, counted, begin_run, release, put,
}

-- How many of the runs are of one user.
unfoldable pub count : String → List String → ℕ
count user [] = 0
count user (u ∷ us) = (if u == user then 1 else 0) + count user us

-- The list without one of its members.
pub data Removes (u : String) : List String → List String → Type 0 where
  here : {us : List String} → Removes u (u ∷ us) us
  there : {v : String} {us rest : List String} → Removes u us rest → Removes u (v ∷ us) (v ∷ rest)

-- The gates that a history of runs reaches, with the users of the runs that are under way and of all
-- the runs begun. A run releases the gate once, when it ends.
pub data Reaches (b : Budget) : Gate → List String → List String → Type 0 where
  fresh : Reaches b (new_gate b) [] []
  admitted :
      {g g' : Gate} {running begun : List String} {user : String}
      → Reaches b g running begun
      → begin_run user g ≡ (g', none)
      → Reaches b g' (user ∷ running) (user ∷ begun)
  refused :
      {g g' : Gate} {running begun : List String} {e : Refusal} (user : String)
      → Reaches b g running begun
      → begin_run user g ≡ (g', some e)
      → Reaches b g' running begun
  ended :
      {g : Gate} {running rest begun : List String} (user : String)
      → Reaches b g running begun
      → Removes user running rest
      → Reaches b (release user g) rest begun

-- A counter counts the runs of a user, up to a limit.
abbrev pub Counts : Counters → List String → ℤ → String → Type 0
Counts counters runs limit user =
    (counters user ≡ pos (count user runs)) × (pos (count user runs) ≤ℤ limit)

pub record Admits (b : Budget) (g : Gate) (running begun : List String) : Type 0 where
  pub same_budget : g.budget ≡ with_defaults b
  pub inflight : (u : String) → Counts g.inflight running (with_defaults b).max_concurrent u
  pub calls : (u : String) → Counts g.user_calls begun (with_defaults b).max_user_calls u

add64_one :
    (n : ℕ) (limit : ℤ)
    → InRange limit
    → leb_ℤ limit (pos n) ≡ false
    → add64 (pos n) (pos 1) ≡ pos (1 + n)
unfolding add64 wrap leb_ℤ ◌+ℤ◌ ◌-ℤ◌
add64_one n limit r h = ground arith

sub64_one :
    (n : ℕ) (limit : ℤ) → InRange limit → pos (1 + n) ≤ℤ limit → sub64 (pos (1 + n)) (pos 1) ≡ pos n
unfolding sub64 wrap ◌+ℤ◌ ◌-ℤ◌
sub64_one n limit r h = ground arith

zero_plus : (n : ℕ) → 0 + n ≡ n
zero_plus n = omega arith

-- One more run of a user below the limit.
Counts-more :
    (m : Counters) (runs : List String) (limit : ℤ) (user u : String)
    → InRange limit
    → ((v : String) → Counts m runs limit v)
    → leb_ℤ limit (m user) ≡ false
    → Counts (put user (add64 (m user) (pos 1)) m) (user ∷ runs) limit u
unfolding put count
Counts-more m runs limit user u r all below = elim (Bool-cases (user == u)) [
  | inl same ↦
      let one_user = (eq_iff user u).0 same in
      let counted : m user ≡ pos (count u runs) = rw one_user ((all u).0) in
      let below' : leb_ℤ limit (pos (count u runs)) ≡ false = rw counted at below in
      rw same (
        rw counted (add64_one (count u runs) limit r below', below_suc (count u runs) limit below'))
  | inr other ↦ rw other (rw (zero_plus (count u runs)) (all u))
]
  where
    below_suc : (n : ℕ) (limit : ℤ) → leb_ℤ limit (pos n) ≡ false → pos (1 + n) ≤ℤ limit
    below_suc n limit h = unfold leb_ℤ in ground arith

count-Removes :
    {user : String} {runs rest : List String}
    → Removes user runs rest
    → (u : String) → count u runs ≡ count u (user ∷ rest)
unfolding count
count-Removes here u = refl
count-Removes {user} {runs} {rest} (there {v} {us} {rest = left} removes) u =
    shift (if v == u then 1 else 0) (if user == u then 1 else 0) (count u us) (count u left)
      (count-Removes removes u)
  where
    shift : (a b c d : ℕ) → c ≡ b + d → a + c ≡ b + (a + d)
    shift a b c d h = omega arith

-- One run of a user fewer.
Counts-fewer :
    (m : Counters) (runs rest : List String) (limit : ℤ) (user u : String)
    → InRange limit
    → ((v : String) → Counts m runs limit v)
    → Removes user runs rest
    → Counts (put user (sub64 (m user) (pos 1)) m) rest limit u
unfolding put count
Counts-fewer m runs rest limit user u r all removes = elim (Bool-cases (user == u)) [
  | inl same ↦
      let left : count u runs ≡ 1 + count u rest = count-Removes removes u ∙ rw same refl in
      let full : (m user ≡ pos (1 + count u rest)) × (pos (1 + count u rest) ≤ℤ limit) =
        rw (sym left) (rw ((eq_iff user u).0 same) (all u)) in
      rw same (
        rw (full.0)
          (sub64_one (count u rest) limit r full.1, below_pred (count u rest) limit full.1))
  | inr other ↦
      let kept : count u rest ≡ count u runs =
        sym (count-Removes removes u ∙ rw other (zero_plus (count u rest))) in
      rw other (rw kept (all u))
]
  where
    below_pred : (n : ℕ) (limit : ℤ) → pos (1 + n) ≤ℤ limit → pos n ≤ℤ limit
    below_pred n limit h = omega arith

begin_run-eq-none :
    (user : String) (g : Gate) {g' : Gate}
    → begin_run user g ≡ (g', none)
    → (leb_ℤ g.budget.max_concurrent (g.inflight user) ≡ false)
      × (leb_ℤ g.budget.max_user_calls (g.user_calls user) ≡ false)
      × (counted user g ≡ g')
unfolding begin_run
begin_run-eq-none user g {g'} h =
    go (leb_ℤ g.budget.max_concurrent (g.inflight user))
      (leb_ℤ g.budget.max_user_calls (g.user_calls user)) h
  where
    go :
        (b c : Bool)
        → ◌≡◌ {A = Gate × Option Refusal}
            (if b
              then (g, some too_many_runs)
              else if c
              then (g, some quota_exhausted)
              else (counted user g, none))
            (g', none)
        → (b ≡ false) × (c ≡ false) × (counted user g ≡ g')
    go true c h = absurd (cc)
    go false true h = absurd (cc)
    go false false h = (refl, refl, ap (λ p. p.0) h)

begin_run-eq-some :
    (user : String) (g : Gate) {g' : Gate} {e : Refusal} → begin_run user g ≡ (g', some e) → g ≡ g'
unfolding begin_run
begin_run-eq-some user g {g'} {e} h =
    go (leb_ℤ g.budget.max_concurrent (g.inflight user))
      (leb_ℤ g.budget.max_user_calls (g.user_calls user)) h
  where
    go :
        (b c : Bool)
        → ◌≡◌ {A = Gate × Option Refusal}
            (if b
              then (g, some too_many_runs)
              else if c
              then (g, some quota_exhausted)
              else (counted user g, none))
            (g', some e)
        → g ≡ g'
    go true c h = ap (λ p. p.0) h
    go false true h = ap (λ p. p.0) h
    go false false h = absurd (cc)

positive_or-nonneg : (v : ℤ) (d : ℕ) → pos 0 ≤ℤ positive_or v d
positive_or-nonneg v d = unfold leb_ℤ in ground arith

Admits-release :
    (b : Budget) (user : String) {g : Gate} {running rest begun : List String}
    → Removes user running rest
    → InRange (with_defaults b).max_concurrent
    → Admits b g running begun
    → Admits b (release user g) rest begun
unfolding release
Admits-release b user {running} {rest} removes r before = record {
  same_budget = before.same_budget;
  inflight = λ u. Counts-fewer _ running rest _ user u r before.inflight removes;
  calls = before.calls;
}

-- Starting from a new gate, after any sequence of admitted, refused and ended runs: for every user
-- the gate's counters are the number of the user's runs under way and of all those begun, and these
-- numbers are at most the (defaulted) concurrency limit and the (defaulted) quota of calls. The
-- limits are in the range of `int64`.
pub Reaches-Admits :
    (b : Budget)
    → InRange (with_defaults b).max_concurrent
    → InRange (with_defaults b).max_user_calls
    → {g : Gate} {running begun : List String} → Reaches b g running begun
    → Admits b g running begun
Reaches-Admits b r r' fresh =
    unfold new_gate with_defaults count in
    record {
      same_budget = refl;
      inflight = λ u. (refl, positive_or-nonneg b.max_concurrent 4);
      calls = λ u. (refl, positive_or-nonneg b.max_user_calls 100);
    }
Reaches-Admits b r r' (admitted {running} {begun} {user} reach e) =
    let before = Reaches-Admits b r r' reach in
    let (slot, quota, same) = begin_run-eq-none user _ e in
    subst (λ g. Admits b g (user ∷ running) (user ∷ begun)) same
      record {
        same_budget = before.same_budget;
        inflight =
            λ u. Counts-more _ running _ user u r before.inflight (rw before.same_budget at slot);
        calls = λ u. Counts-more _ begun _ user u r' before.calls (rw before.same_budget at quota);
      }
Reaches-Admits b r r' (refused {running} {begun} user reach e) =
    subst (λ g. Admits b g running begun) (begin_run-eq-some user _ e) (Reaches-Admits b r r' reach)
Reaches-Admits b r r' (ended user reach removes) =
    Admits-release b user removes r (Reaches-Admits b r r' reach)
