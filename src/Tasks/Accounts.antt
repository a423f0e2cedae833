-- ===== src/Tasks/Accounts.antt =====
-- The token accounting of `Complete`, `Cancel`, `SweepTimeouts`, `Recover`, `Reserve`, `ConfirmUnknownAs` and `RequeueUnknownAs` (tasks.go).
use Prim.Native.String.{String}
use gin_bear.Base.{
  ℕ, ◌^◌, ◌<◌, ◌≡◌, refl, ◌∙◌, ap, Bool, true, false, Bool-cases, inl, inr, none, some, arith, ◌&&◌,
  if◌then◌else◌,
}
use mathlib.Core.Path.{ap₂}
use gin_bear.Base.Int.{
  ℤ, pos, negsuc, pos_part, neg_part, ◌+ℤ◌, ◌-ℤ◌, ◌≤ℤ◌, ltb_ℤ, InRange, wrap_of_InRange, add64,
  sub64, int_laws,
}
use gin_bear.Tasks.Types.{
  Task, Db, Env, Outcome, is_unknown, is_running, unknown, canceled, after_read,
}
use gin_bear.Tasks.Complete.{
  charge, settled, stamp, settle_status, settle_error, count_attempt, cancelled, has_intent,
  unknown_text,
}
use gin_bear.Tasks.Sweep.{sweep_tx, recover}
use gin_bear.Tasks.Sql.{ok}
use gin_bear.Tasks.Intent.{reserved}
use gin_bear.Tasks.Reconcile.{confirmed, refunded}
use gin_bear.Tasks.Alike.{
  SameAmounts, Alike, Place, SameAmounts-of_Place, sweep_tx-Alike, recover-Alike,
}

-- What a task still holds: its budget and what is set aside.
abbrev pub holdings : Task → ℤ
holdings t = t.budget_tokens +ℤ t.reserved_tokens

-- Amounts that a task's arithmetic keeps within `int64`.
abbrev pub IsSmall : ℤ → Type 0
IsSmall z = (pos_part z < 2 ^ 61) × (neg_part z < 2 ^ 61)

add64_small : (a b : ℤ) → IsSmall a → IsSmall b → add64 a b ≡ a +ℤ b
unfolding add64
add64_small a b h k = wrap_of_InRange (a +ℤ b) (bounded a b h k)
  where
    bounded : (a b : ℤ) → IsSmall a → IsSmall b → InRange (a +ℤ b)
    bounded a b h k = unfold ◌+ℤ◌ in ground arith

sub64_small : (a b : ℤ) → IsSmall a → IsSmall b → sub64 a b ≡ a -ℤ b
unfolding sub64
sub64_small a b h k = wrap_of_InRange (a -ℤ b) (bounded a b h k)
  where
    bounded : (a b : ℤ) → IsSmall a → IsSmall b → InRange (a -ℤ b)
    bounded a b h k = unfold ◌-ℤ◌ in ground arith

-- a + (r - u), where the difference may be twice as large.
add_sub64_small :
    (a r u : ℤ) → IsSmall a → IsSmall r → IsSmall u → add64 a (sub64 r u) ≡ a +ℤ (r -ℤ u)
unfolding add64
add_sub64_small a r u h k l =
    rw (sub64_small r u k l) (wrap_of_InRange (a +ℤ (r -ℤ u)) (bounded a r u h k l))
  where
    bounded : (a r u : ℤ) → IsSmall a → IsSmall r → IsSmall u → InRange (a +ℤ (r -ℤ u))
    bounded a r u h k l = unfold ◌+ℤ◌ ◌-ℤ◌ in ground arith

-- A task whose amounts are small, with nothing or more set aside.
pub record HasFunds (t : Task) : Type 0 where
  pub budget_small : IsSmall t.budget_tokens
  pub reserved_small : IsSmall t.reserved_tokens
  pub reserved_nonneg : pos 0 ≤ℤ t.reserved_tokens

-- An unknown result leaves the amounts alone; any other charges the usage and keeps nothing aside.
abbrev pub Charged : ℤ → Task → Task → Type 0
Charged usage t t' =
    (is_unknown t'.status ≡ true
      → (t'.budget_tokens ≡ t.budget_tokens) × (t'.reserved_tokens ≡ t.reserved_tokens))
    × (is_unknown t'.status ≡ false
        → (holdings t' ≡ holdings t -ℤ usage) × (t'.reserved_tokens ≡ pos 0))

not_positive : (z : ℤ) → ltb_ℤ (pos 0) z ≡ false → pos 0 ≤ℤ z → z ≡ pos 0
unfolding ltb_ℤ
not_positive (pos n) h k = ground arith
not_positive (negsuc n) h k = absurd (omega arith)

holdings-charge :
    (usage : ℤ) (t : Task)
    → IsSmall usage
    → HasFunds t
    → is_unknown t.status ≡ false
    → (holdings (charge usage t) ≡ holdings t -ℤ usage) × ((charge usage t).reserved_tokens ≡ pos 0)
unfolding charge
holdings-charge usage t u f settled =
    rw settled (elim (Bool-cases (ltb_ℤ (pos 0) t.reserved_tokens)) [
      | inl aside ↦
          rw
            (
              aside,
              add_sub64_small t.budget_tokens t.reserved_tokens usage f.budget_small
                  f.reserved_small u,
            )
            (omega int_laws, refl)
      | inr nothing ↦
          let none_aside : t.reserved_tokens ≡ pos 0 =
            not_positive t.reserved_tokens nothing f.reserved_nonneg in
          rw (nothing, sub64_small t.budget_tokens usage f.budget_small u)
            (omega int_laws, none_aside)
    ])

-- The branches of `Complete` on the outcome move no tokens themselves.
settle_error-amounts : (t : Task) (o : Outcome) (e : _) → SameAmounts t (settle_error t o e)
unfolding settle_error
settle_error-amounts t o e = ground arith

settle_status-amounts : (t : Task) (o : Outcome) → SameAmounts t (settle_status t o o.error)
unfolding settle_status
settle_status-amounts t o = elim o.error as (λ e. SameAmounts t (settle_status t o e)) [
  | none ↦ (refl, refl)
  | some e ↦ settle_error-amounts t o e
]

differ : {b : Bool} → b ≡ true → b ≡ false → ⊥
differ h k = cc

status-charge : (usage : ℤ) (t : Task) → (charge usage t).status ≡ t.status
unfolding charge
status-charge usage t = ground arith

HasFunds-of_same : (t t' : Task) → SameAmounts t t' → HasFunds t → HasFunds t'
HasFunds-of_same t t' (b, r) f = record {
  budget_small = rw b f.budget_small;
  reserved_small = rw r f.reserved_small;
  reserved_nonneg = rw r f.reserved_nonneg;
}

settled-charge_lem :
    (env : Env) (o : Outcome) (t t' : Task)
    → IsSmall o.usage
    → HasFunds t
    → SameAmounts t t'
    → Charged o.usage t (stamp env (charge o.usage t'))
unfolding stamp
settled-charge_lem env o t t' u f (b, r) =
    let same = status-charge o.usage t' in
    elim (Bool-cases (is_unknown t'.status)) [
      | inl held ↦ unfold charge in rw held (λ _. (b, r), λ x. absurd (cc))
      | inr final ↦
          let (kept, spent) = holdings-charge o.usage t' u (HasFunds-of_same t t' (b, r) f) final in
          (
            λ x. absurd (differ (rw same at x) final),
            λ _. (kept ∙ ap₂ (λ x y. x +ℤ y -ℤ o.usage) b r, spent),
          )
    ]

-- A completion that leaves the result unknown keeps budget and reservation as they were; every other
-- completion lowers what the task holds, budget and reservation together, by the reported usage
-- exactly, and leaves nothing reserved. The amounts are below 2^61, and no reservation is negative.
pub settled-Charged :
    (env : Env) (o : Outcome) (t : Task)
    → IsSmall o.usage
    → HasFunds t
    → Charged o.usage t (settled env o t)
unfolding settled count_attempt settle_status
settled-Charged env o t u f =
    settled-charge_lem env o t _ u f (settle_status-amounts (count_attempt t) o)

-- A reservation moves tokens within the task: it holds as much as before.
holdings-reserved :
    (env : Env) (amount : ℤ) (t : Task)
    → IsSmall amount
    → HasFunds t
    → holdings (reserved env amount t) ≡ holdings t
unfolding reserved stamp
holdings-reserved env amount t a f =
    rw
      (
        sub64_small t.budget_tokens amount f.budget_small a,
        add64_small t.reserved_tokens amount f.reserved_small a,
      )
      (omega int_laws)

regroup : (b r u : ℤ) → b +ℤ (r -ℤ u) +ℤ pos 0 ≡ b +ℤ r -ℤ u
regroup b r u = omega int_laws

drop_zero : (z : ℤ) → z +ℤ pos 0 ≡ z
drop_zero z = omega int_laws

-- The ways in which the store makes a task unknown: a completion, and the three operations that take
-- a running write from its worker. `SweepTimeouts` is one transaction; while `Recover` lets others
-- commit, they keep the amounts.
pub data MadeUnknown (t : Task) : Task → Type 0 where
  by_complete :
      (env : Env) (o : Outcome)
      → IsSmall o.usage
      → is_unknown (settled env o t).status ≡ true
      → MadeUnknown t (settled env o t)
  by_cancel :
      (env : Env) → is_unknown (cancelled env t).status ≡ true → MadeUnknown t (cancelled env t)
  by_sweep :
      {held : Task} (env : Env) (k : ℕ) (db : Db) {end : Db} {n : ℕ}
      → sweep_tx env k db ≡ (end, ok n)
      → Place t held db.tasks end.tasks
      → is_unknown held.status ≡ true
      → MadeUnknown t held
  by_recover :
      {held : Task} (env : Env) (db : Db) {end : Db} {n : ℕ}
      → ((d : Db) → Alike d.tasks (env.between after_read d).tasks)
      → recover env db ≡ (end, ok n)
      → Place t held db.tasks end.tasks
      → is_unknown held.status ≡ true
      → MadeUnknown t held

cancelled-amounts : (env : Env) (t : Task) → SameAmounts t (cancelled env t)
unfolding cancelled stamp
cancelled-amounts env t = go (is_running t.status && has_intent t)
  where
    cleared : Task
    cleared = record t { lease_owner = ""; lease_expires = pos 0 }

    go :
        (b : Bool)
        → SameAmounts t (
            stamp env (
              if b
              then record cleared { status = unknown; error_text = unknown_text }
              else record cleared { status = canceled }))
    go true = (refl, refl)
    go false = (refl, refl)

MadeUnknown-amounts : {t t' : Task} → HasFunds t → MadeUnknown t t' → SameAmounts t t'
MadeUnknown-amounts {t} f (by_complete env o u is_held) = (settled-Charged env o t u f).0 is_held
MadeUnknown-amounts {t} f (by_cancel env is_held) = cancelled-amounts env t
MadeUnknown-amounts f (by_sweep env k db ran place is_held) =
    SameAmounts-of_Place (sweep_tx-Alike env k db ran) place
MadeUnknown-amounts f (by_recover env db others ran place is_held) =
    SameAmounts-of_Place (recover-Alike env db others ran) place

-- A write that reserved its tokens and was then made unknown, by whichever operation, is charged once:
-- a confirmation lowers what the task held before the reservation by the confirmed usage exactly and
-- leaves nothing reserved, and a requeue gives all of it back. The amounts are below 2^61 before and
-- after the reservation, none is reserved below 0, and what others commit in the middle of a `Recover`
-- keeps the amounts of every row.
pub unknown_charged_once :
    (start settle : Env) (amount usage : ℤ) (result : String) (t held : Task)
    → HasFunds t
    → IsSmall amount
    → HasFunds (reserved start amount t)
    → IsSmall usage
    → MadeUnknown (reserved start amount t) held
    → (holdings (confirmed settle result usage held) ≡ holdings t -ℤ usage)
      × ((confirmed settle result usage held).reserved_tokens ≡ pos 0)
      × (holdings (refunded held) ≡ holdings t)
unfolding confirmed refunded stamp count_attempt
unknown_charged_once start settle amount usage result t held f a g v made =
    let (b, r) = MadeUnknown-amounts g made in
    let whole = holdings-reserved start amount t a f in
    let h = HasFunds-of_same (reserved start amount t) held (b, r) g in
    (
      rw (add_sub64_small _ _ usage h.budget_small h.reserved_small v, b, r)
          (regroup _ _ usage ∙ ap (λ z. z -ℤ usage) whole),
      refl,
      rw (add64_small _ _ h.budget_small h.reserved_small, b, r) (drop_zero _ ∙ whole),
    )
