-- ===== src/Tasks/Inversion.antt =====
-- What a successful call says of its first step, one lemma for each kind of step.
use Prim.Native.String.{String}
use text.Mathlib.Text.{◌==◌}
use gin_bear.Base.{
  ℕ, ◌≡◌, refl, sym, ap, Bool, true, false, Bool-cases, Option-cases, inl, inr, Option, none, some,
  [], ◌∷◌, ◌++◌, any, eqb, arith,
}
use gin_bear.Base.Int.{ℤ}
use gin_bear.Tasks.Types.{
  Task, Approval, Audit, Db, Err, Site, Env, Pause, insert_audit, select_task, update_task,
  for_audit,
}
use gin_bear.Tasks.Sql.{
  Result, ok, err, M, continue, ◌>>=◌, ◌>>◌, fail_if, raise, map_result, map_error, statement,
  pause, find, count, update, select_tasks, select_approvals, update_tasks, update_approvals,
  update_where, set_columns, get, or_no_rows, audit_row, insert_task_audit_on,
}

-- An error is not a value.
err-ne-ok :
    {A : Type 0} {db db' : Db} {e : Err} {a : A} {P : Type 0}
    → ◌≡◌ {A = Db × Result A} (db, err e) (db', ok a)
    → P
err-ne-ok {A} e = absurd (cc (ap (λ (p : Db × Result A). p.1) e))

mapped-eq-ok :
    {A B : Type 0} (g : Err → Err) (r : Db × Result A) (f : A → M B) {db' : Db} {b : B}
    → continue (map_result g r) f ≡ (db', ok b)
    → continue r f ≡ (db', ok b)
mapped-eq-ok g (d, ok a) f h = h
mapped-eq-ok g (d, err e) f h = err-ne-ok h

module _ {B : Type 0} (db : Db) {db' : Db} {b : B} where
  pub fail_if-eq-ok :
      (t : Bool) (e : Err) (m : M B)
      → (fail_if t e >> m) db ≡ (db', ok b)
      → (t ≡ false) × (m db ≡ (db', ok b))
  unfolding ◌>>=◌ fail_if
  fail_if-eq-ok true e m h = err-ne-ok h
  fail_if-eq-ok false e m h = (refl, h)

  pub raise-eq-ok :
      (o : Option Err) (m : M B)
      → (raise o >> m) db ≡ (db', ok b)
      → (o ≡ none) × (m db ≡ (db', ok b))
  unfolding ◌>>=◌ raise
  raise-eq-ok none m h = (refl, h)
  raise-eq-ok (some e) m h = err-ne-ok h

  pub pause-eq-ok :
      (env : Env) (q : Pause) (m : M B)
      → (pause env q >> m) db ≡ (db', ok b)
      → m (env.between q db) ≡ (db', ok b)
  unfolding ◌>>=◌ pause
  pause-eq-ok env q m h = h

  pub statement-eq-ok :
      {A : Type 0} (env : Env) (site : Site) (k : ℕ) (run : Db → Db × Result A) (f : A → M B)
      → (statement env site k run >>= f) db ≡ (db', ok b)
      → continue (run db) f ≡ (db', ok b)
  unfolding ◌>>=◌ statement
  statement-eq-ok env site k run f h = elim (Option-cases (env.fault site k)) [
    | inl e ↦ rw (e, statement) at h
    | inr (x, e) ↦ err-ne-ok (rw (e, statement) at h)
  ]

  found-eq-ok :
      {A : Type 0} (o : Option A) (f : A → M B)
      → continue (or_no_rows db o) f ≡ (db', ok b)
      → (a : A) × (o ≡ some a) × (f a db ≡ (db', ok b))
  unfolding or_no_rows
  found-eq-ok none f h = err-ne-ok h
  found-eq-ok (some a) f h = (a, refl, h)

  pub select_tasks-eq-ok :
      (env : Env) (site : Site) (k : ℕ) (p : Task → Bool) (f : Task → M B)
      → (select_tasks env site k p >>= f) db ≡ (db', ok b)
      → (t : Task) × (find p db.tasks ≡ some t) × (f t db ≡ (db', ok b))
  unfolding select_tasks
  select_tasks-eq-ok env site k p f h =
      found-eq-ok (find p db.tasks) f (statement-eq-ok env site k _ f h)

  pub get-eq-ok :
      (env : Env) (k : ℕ) (id : String) (f : Task → M B)
      → (get env k id >>= f) db ≡ (db', ok b)
      → (t : Task) × (find (λ u. u.id == id) db.tasks ≡ some t) × (f t db ≡ (db', ok b))
  unfolding get
  get-eq-ok env k id f h = select_tasks-eq-ok env _ k _ f h

  pub select_approvals-eq-ok :
      (env : Env) (site : Site) (k : ℕ) (p : Approval → Bool) (f : Approval → M B)
      → (select_approvals env site k p >>= f) db ≡ (db', ok b)
      → (a : Approval) × (find p db.approvals ≡ some a) × (f a db ≡ (db', ok b))
  unfolding select_approvals
  select_approvals-eq-ok env site k p f h =
      found-eq-ok (find p db.approvals) f (statement-eq-ok env site k _ f h)

  pub map_error-eq-ok :
      {A : Type 0} (g : Err → Err) (m : M A) (f : A → M B)
      → (map_error g m >>= f) db ≡ (db', ok b)
      → (m >>= f) db ≡ (db', ok b)
  unfolding ◌>>=◌ map_error
  map_error-eq-ok g m f h = mapped-eq-ok g (m db) f h

  pub update_approvals-eq-ok :
      (env : Env) (site : Site) (k : ℕ) (p : Approval → Bool) (g : Approval → Approval)
      (f : ℕ → M B)
      → (update_approvals env site k p g >>= f) db ≡ (db', ok b)
      → f (count p db.approvals) (record db { approvals = update p g db.approvals }) ≡ (db', ok b)
  unfolding update_approvals
  update_approvals-eq-ok env site k p g f h = statement-eq-ok env site k _ f h

  pub update_tasks-eq-ok :
      (env : Env) (site : Site) (k : ℕ) (p : Task → Bool) (g : Task → Task) (f : ℕ → M B)
      → (update_tasks env site k p g >>= f) db ≡ (db', ok b)
      → f (count p db.tasks) (record db { tasks = update p g db.tasks }) ≡ (db', ok b)
  unfolding update_tasks
  update_tasks-eq-ok env site k p g f h = statement-eq-ok env site k _ f h

  pub update_where-eq-ok :
      (env : Env) (k : ℕ) (new : Task) (p : Task → Bool) (f : Bool → M B)
      → (update_where env k new p >>= f) db ≡ (db', ok b)
      → f (eqb (count p db.tasks) 1) (record db { tasks = update p (set_columns new) db.tasks })
        ≡ (db', ok b)
  unfolding update_where update_tasks statement ◌>>=◌
  update_where-eq-ok env k new p f h = elim (Option-cases (env.fault update_task k)) [
    | inl e ↦ rw (e, statement) at h
    | inr (x, e) ↦ err-ne-ok (rw (e, statement) at h)
  ]

-- A check that passed has changed nothing.
pub checked-eq-ok :
    (t : Bool) (e : Err) (db : Db) {db' : Db} {u : Unit {0}}
    → fail_if t e db ≡ (db', ok u)
    → (t ≡ false) × (db ≡ db')
unfolding fail_if
checked-eq-ok true e db h = err-ne-ok h
checked-eq-ok false e db h = (refl, ap (λ p. p.0) h)

-- The row that an audit statement adds.
pub insert_task_audit_on-eq-ok :
    (env : Env) (k : ℕ) (t : Task) (action actor : String) (usage : ℤ) (db : Db) {db' : Db}
    {u : Unit {0}}
    → insert_task_audit_on env k t action actor usage db ≡ (db', ok u)
    → db' ≡ record db { audits = db.audits ++ audit_row env k t action actor usage ∷ [] }
unfolding insert_task_audit_on statement
insert_task_audit_on-eq-ok env k t action actor usage db h =
    elim (Option-cases (env.fault insert_audit k)) [
      | inr (x, e) ↦ err-ne-ok (rw (e, statement) at h)
      | inl e ↦ elim (Bool-cases (any (λ (a : Audit). a.id == env.new_id for_audit k) db.audits)) [
        | inl clash ↦ err-ne-ok (rw clash at (rw (e, statement) at h))
        | inr free ↦ ap (λ p. p.0) (sym (rw free at (rw (e, statement) at h)))
      ]
    ]

-- A read changes nothing.
pub get-same :
    (env : Env) (k : ℕ) (id : String) (db : Db) {db' : Db} {t : Task}
    → get env k id db ≡ (db', ok t)
    → (db ≡ db') × (find (λ u. u.id == id) db.tasks ≡ some t)
unfolding get select_tasks statement or_no_rows
get-same env k id db {db'} {t} h = elim (Option-cases (env.fault select_task k)) [
  | inr (x, e) ↦ err-ne-ok (rw (e, statement) at h)
  | inl e ↦ elim (Option-cases (find (λ u. u.id == id) db.tasks)) [
    | inl missing ↦ err-ne-ok (rw missing at (rw (e, statement) at h))
    | inr (u, found) ↦
        let same : ◌≡◌ {A = Db × Result Task} (db, ok u) (db', ok t) =
          rw found at (rw (e, statement) at h) in
        (ap (λ p. p.0) same, rw found (ground (arith, ap (λ p. p.1) same)))
  ]
]
