-- ===== src/Tasks/Race.antt =====
-- Two workers that race for one row: `claimCAS` of tasks.go.
use Prim.Native.String.{String}
use text.Mathlib.Text.{◌==◌}
use gin_bear.Base.{
  ℕ, ◌+◌, ◌%◌, ◌^◌, ◌≤◌, ◌<◌, ◌≡◌, refl, sym, ◌∙◌, ap, subst, Bool, true, false, Bool-cases, inl,
  inr, Option, none, some, List, [], ◌∷◌, any, All, both, eqb, ◌&&◌, arith,
}
use gin_bear.Base.Int.{ℤ}
use gin_bear.Tasks.Types.{Task, Db, Env, is_queued, next_version, claim_cas as cas_site}
use gin_bear.Tasks.Sql.{ok, ◌>>=◌, return, update_tasks, update, count, get}
use gin_bear.Tasks.Rows.{update-miss, count-miss, All-any}
use gin_bear.Tasks.Atomic.{>>=-eq-ok}
use gin_bear.Tasks.Inversion.{update_tasks-eq-ok, get-same}
use gin_bear.Tasks.Available.{Available, statement_runs}
use gin_bear.Tasks.Claim.{claim_cas, lease_to}

-- The condition of `claimCAS`: the row is queued and of the version that was read.
abbrev pub claimable : Task → Task → Bool
claimable task t = t.id == task.id && (eqb t.version task.version && is_queued t.status)

-- What a commit does to the row of a task: it is removed from no table and keeps its identifier, and
-- its version stays or goes up by one.
pub data Written (t t' : Task) : Type 0 where
  kept : t'.id ≡ t.id → t'.version ≡ t.version → Written t t'
  bumped : t'.id ≡ t.id → t'.version ≡ next_version t.version → Written t t'

-- The rows of one commit: old ones written, and new ones that do not have the identifier.
pub data Commit (id : String) : List Task → List Task → Type 0 where
  no_rows_left : Commit id [] []
  row :
      {t t' : Task} {ts ts' : List Task}
      → Written t t'
      → Commit id ts ts'
      → Commit id (t ∷ ts) (t' ∷ ts')
  new_row :
      {t : Task} {ts : List Task} → (t.id == id) ≡ false → Commit id [] ts → Commit id [] (t ∷ ts)

-- The databases that some commits reach, with the number of commits.
pub data Later (id : String) (d : Db) : ℕ → Db → Type 0 where
  at_once : Later id d 0 d
  after :
      {n : ℕ} {d' d'' : Db}
      → Later id d n d'
      → Commit id d'.tasks d''.tasks
      → Later id d (n + 1) d''

-- A row of the identifier is 1 to n + 1 versions past v.
abbrev Past : String → ℕ → ℕ → Task → Type 0
Past id v n t = (t.id == id) ≡ true → (j : ℕ) × (j ≤ n) × (t.version ≡ (v + 1 + j) % 2 ^ 64)

Written-Past :
    (id : String) (v n : ℕ) {t t' : Task} → Written t t' → Past id v n t → Past id v (n + 1) t'
unfolding next_version
Written-Past id v n {t} {t'} (kept same version) past hit =
    let (j, le, at) = past (rw same at hit) in (j, omega (arith, le), version ∙ at)
Written-Past id v n {t} {t'} (bumped same version) past hit =
    let (j, le, at) = past (rw same at hit) in
    (j + 1, omega (arith, le), omega (arith, version, at))

Commit-Past :
    (id : String) (v n : ℕ) {ts ts' : List Task}
    → Commit id ts ts'
    → All (Past id v n) ts
    → All (Past id v (n + 1)) ts'
Commit-Past id v n no_rows_left h = tt
Commit-Past id v n (row w c) (h, hs) = (Written-Past id v n w h, Commit-Past id v n c hs)
Commit-Past id v n (new_row other c) h = ((λ hit. absurd (cc)), Commit-Past id v n c h)

Later-Past :
    (id : String) (v : ℕ) {d : Db} {n : ℕ} {d' : Db}
    → Later id d n d'
    → All (Past id v 0) d.tasks
    → All (Past id v n) d'.tasks
Later-Past id v at_once h = h
Later-Past id v (after {n} later c) h = Commit-Past id v n c (Later-Past id v later h)

-- Only 2^64 versions on would the version be the one that was read.
claimable_of_Past :
    (task : Task) (n : ℕ) (t : Task)
    → task.version < 2 ^ 64
    → n + 1 < 2 ^ 64
    → Past task.id task.version n t
    → claimable task t ≡ false
claimable_of_Past task n t v few past = elim (Bool-cases (t.id == task.id)) [
  | inr other ↦ rw other refl
  | inl hit ↦
      let (j, le, at) = past hit in
      let moved_on : eqb t.version task.version ≡ false = ground (arith, le, at) in
      rw (hit, moved_on) refl
]

module _ (p q : Task → Bool) (within : (t : Task) → q t ≡ true → p t ≡ true) where
  count_le : (ts : List Task) → count q ts ≤ count p ts
  count_le [] = omega arith
  count_le (t ∷ ts) = elim (Bool-cases (q t)) [
    | inl hit ↦ rw (hit, within t hit) (omega (arith, count_le ts))
    | inr miss ↦ rw miss (elim (Bool-cases (p t)) [
      | inl hit ↦ rw hit (omega (arith, count_le ts))
      | inr other ↦ rw other (count_le ts)
    ])
  ]

  none_fits : (ts : List Task) → count p ts ≡ 0 → All (λ t. p t ≡ true → q t ≡ true) ts
  none_fits [] h = tt
  none_fits (t ∷ ts) h = elim (Bool-cases (p t)) [
    | inl hit ↦ absurd (let h' = rw hit at h in omega (arith, h'))
    | inr miss ↦ ((λ hit. absurd (cc)), none_fits ts (rw miss at h))
  ]

  -- If both fit one row, it is the same row.
  only_fit :
      (ts : List Task) → count p ts ≡ 1 → count q ts ≡ 1 → All (λ t. p t ≡ true → q t ≡ true) ts
  only_fit [] h k = tt
  only_fit (t ∷ ts) h k = elim (Bool-cases (q t)) [
    | inl hit ↦ ((λ _. hit), none_fits ts (let h' = rw (within t hit) at h in omega (arith, h')))
    | inr miss ↦
        let k' : count q ts ≡ 1 = rw miss at k in
        elim (Bool-cases (p t)) [
          | inl here ↦ absurd (let h' = rw here at h in omega (arith, h', k', count_le ts))
          | inr other ↦ ((λ here. absurd (cc)), only_fit ts (rw other at h) k')
        ]
  ]

leased-Past :
    (env : Env) (task : Task) (owner : String) (lease : ℤ) (ts : List Task)
    → All (λ t. (t.id == task.id) ≡ true → claimable task t ≡ true) ts
    → All (Past task.id task.version 0) (update (claimable task) (lease_to env owner lease) ts)
unfolding lease_to next_version
leased-Past env task owner lease [] h = tt
leased-Past env task owner lease (t ∷ ts) (h, hs) = elim (Bool-cases (claimable task t)) [
  | inl hit ↦
      let read : eqb t.version task.version ≡ true = ground (arith, hit) in
      rw hit ((λ _. (0, omega arith, ground (arith, read))), leased-Past env task owner lease ts hs)
  | inr miss ↦ rw miss ((λ here. absurd (cc (h here))), leased-Past env task owner lease ts hs)
]

claimable-id : (task t : Task) → claimable task t ≡ true → (t.id == task.id) ≡ true
claimable-id task t h = (both _ _ h).0

read-tasks :
    (env : Env) (k : ℕ) (id : String) (d : Db) {end : Db} {o : Option Task}
    → (get env k id >>= λ won. return (some won)) d ≡ (end, ok o)
    → end.tasks ≡ d.tasks
read-tasks env k id d h =
    let (d', t, read, last) = >>=-eq-ok (get env k id) _ d h in
    ap (λ r. r.0.tasks) (sym last) ∙ ap (λ e. e.tasks) (sym (get-same env k id d read).0)

won-tasks :
    (env : Env) (k : ℕ) (task : Task) (owner : String) (lease : ℤ) (db : Db) {end : Db} {won : Task}
    → claim_cas env k task owner lease db ≡ (end, ok (some won))
    → (end.tasks ≡ update (claimable task) (lease_to env owner lease) db.tasks)
      × (count (claimable task) db.tasks ≡ 1)
unfolding claim_cas
won-tasks env k task owner lease db {end} h =
    let h₁ = update_tasks-eq-ok db env cas_site k (claimable task) (lease_to env owner lease) _ h in
    elim (Bool-cases (eqb (count (claimable task) db.tasks) 1)) [
      | inr lost ↦ absurd (cc (rw lost at h₁))
      | inl one ↦ (read-tasks env k task.id _ (rw one at h₁), ground (arith, one))
    ]

lost-eq :
    (env : Env) (k : ℕ) (task : Task) (owner : String) (lease : ℤ) (db : Db)
    → Available env
    → any (claimable task) db.tasks ≡ false
    → claim_cas env k task owner lease db ≡ (db, ok none)
unfolding claim_cas update_tasks ◌>>=◌
lost-eq env k task owner lease db available miss = rw (
  statement_runs env available cas_site k _ db,
  update-miss (claimable task) (lease_to env owner lease) db.tasks miss,
  count-miss (claimable task) db.tasks miss,
)

-- Once a worker has won the claim of a row as it was read, every other claim of the row as it was
-- read then is lost, at once or after any commits of others, be the row back in the queue: it reports
-- no error, returns no task and writes nothing. A commit leaves the version of a row or adds one to
-- it, there are fewer than 2^64 - 1 commits, and the identifier is of one row only.
pub claim_cas_race :
    (first second : Env) (k k' : ℕ) (task : Task) (owner owner' : String) (lease lease' : ℤ)
    (db : Db) {end later : Db} {won : Task} {n : ℕ}
    → task.version < 2 ^ 64
    → count (λ t. t.id == task.id) db.tasks ≡ 1
    → claim_cas first k task owner lease db ≡ (end, ok (some won))
    → Later task.id end n later
    → n + 1 < 2 ^ 64
    → Available second
    → claim_cas second k' task owner' lease' later ≡ (later, ok none)
claim_cas_race first second k k' task owner owner' lease lease' db {end} {later} {won} {n} version
      unique wins commits few available =
    let (written, one) = won-tasks first k task owner lease db wins in
    let same =
      only_fit (λ t. t.id == task.id) (claimable task) (λ t. claimable-id task t) db.tasks unique
        one in
    let past : All (Past task.id task.version 0) end.tasks =
      subst (All (Past task.id task.version 0)) (sym written)
        (leased-Past first task owner lease db.tasks same) in
    lost-eq second k' task owner' lease' later available (
      All-any (Past task.id task.version n) (claimable task) later.tasks
        (λ t. claimable_of_Past task n t version few)
        (Later-Past task.id task.version commits past))
