-- ===== src/Tasks/Alike.antt =====
-- The amounts of all rows under `SweepTimeouts` and `Recover` of tasks.go.

use gin_bear.Base.{ℕ, subst, List, [], ◌∷◌, ◌≡◌, refl, ◌∙◌, ap, Bool, Bool-cases, inl, inr}
use gin_bear.Tasks.Types.{Task, Db, Status, Env, unknown, queued, timed_out, after_read}
use gin_bear.Tasks.Sweep.{unleased, swept, recovered, sweep_tx, recover}
use gin_bear.Tasks.Sql.{ok, update}
use gin_bear.Tasks.Inversion.{update_tasks-eq-ok, pause-eq-ok}

-- The amounts of a row.
abbrev pub SameAmounts : Task → Task → Type 0
SameAmounts t t' = (t'.budget_tokens ≡ t.budget_tokens) × (t'.reserved_tokens ≡ t.reserved_tokens)

-- Two tables with the same amounts, row by row; the second may have more rows.
pub data Alike : List Task → List Task → Type 0 where
  no_rows : {ts : List Task} → Alike [] ts
  row :
      {t t' : Task} {ts ts' : List Task}
      → SameAmounts t t'
      → Alike ts ts'
      → Alike (t ∷ ts) (t' ∷ ts')

-- A row before and the row in its place after.
pub data Place (t t' : Task) : List Task → List Task → Type 0 where
  first : {ts ts' : List Task} → Place t t' (t ∷ ts) (t' ∷ ts')
  further : {u u' : Task} {ts ts' : List Task} → Place t t' ts ts' → Place t t' (u ∷ ts) (u' ∷ ts')

Alike-trans : {xs ys zs : List Task} → Alike xs ys → Alike ys zs → Alike xs zs
Alike-trans no_rows h = no_rows
Alike-trans (row (b, r) h) (row (b', r') h') = row (b' ∙ b, r' ∙ r) (Alike-trans h h')

pub SameAmounts-of_Place :
    {t t' : Task} {ts ts' : List Task} → Alike ts ts' → Place t t' ts ts' → SameAmounts t t'
SameAmounts-of_Place no_rows p = elim p [ ]
SameAmounts-of_Place (row same h) first = same
SameAmounts-of_Place (row same h) (further p) = SameAmounts-of_Place h p

update-Alike :
    (p : Task → Bool) (f : Task → Task) (ts : List Task)
    → ((t : Task) → SameAmounts t (f t))
    → Alike ts (update p f ts)
update-Alike p f [] same = no_rows
update-Alike p f (t ∷ ts) same = elim (Bool-cases (p t)) [
  | inl hit ↦ rw hit (row (same t) (update-Alike p f ts same))
  | inr miss ↦ rw miss (row (refl, refl) (update-Alike p f ts same))
]

unleased-amounts : (env : Env) (status : Status) (t : Task) → SameAmounts t (unleased env status t)
unfolding unleased
unleased-amounts env status t = (refl, refl)

swept-amounts : (env : Env) (t : Task) → SameAmounts t (swept env t)
unfolding unleased
swept-amounts env t = (refl, refl)

pub sweep_tx-Alike :
    (env : Env) (k : ℕ) (db : Db) {end : Db} {n : ℕ}
    → sweep_tx env k db ≡ (end, ok n)
    → Alike db.tasks end.tasks
unfolding sweep_tx
sweep_tx-Alike env k db h =
    let h₁ = update_tasks-eq-ok db _ _ _ _ _ _ h in
    let h₂ = update_tasks-eq-ok _ _ _ _ _ _ _ h₁ in
    subst (λ ts. Alike db.tasks ts) (ap (λ r. r.0.tasks) h₂)
      (Alike-trans (update-Alike _ (swept env) db.tasks (swept-amounts env))
        (update-Alike _ (unleased env timed_out) _ (unleased-amounts env timed_out)))

pub recover-Alike :
    (env : Env) (db : Db) {end : Db} {n : ℕ}
    → ((d : Db) → Alike d.tasks (env.between after_read d).tasks)
    → recover env db ≡ (end, ok n)
    → Alike db.tasks end.tasks
unfolding recover
recover-Alike env db others h =
    let h₁ = update_tasks-eq-ok db _ _ _ _ _ _ h in
    let h₂ = pause-eq-ok _ env after_read _ h₁ in
    let h₃ = update_tasks-eq-ok _ _ _ _ _ _ _ h₂ in
    subst (λ ts. Alike db.tasks ts) (ap (λ r. r.0.tasks) h₃)
      (Alike-trans (update-Alike _ (unleased env queued) db.tasks (unleased-amounts env queued))
        (Alike-trans (others _) (update-Alike _ (recovered env) _ (unleased-amounts env unknown))))
