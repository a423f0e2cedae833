-- ===== src/Tasks/Available.antt =====
-- A database that refuses no statement.
use Prim.Native.String.{String}
use text.Mathlib.Text.{◌==◌}
use gin_bear.Base.{
  ℕ, ◌≡◌, refl, Bool, true, false, Option-cases, inl, inr, Option, none, some, any, if◌then◌else◌,
}
use gin_bear.Tasks.Types.{Task, Db, Err, Env, Site, select_task, update_task, tx_begin, tx_commit}
use gin_bear.Tasks.Sql.{
  Result, ok, M, ◌>>=◌, ◌>>◌, return, statement, transact_once, transact_from, transact, get,
  select_tasks, find, or_no_rows, update_where, update_tasks, set_columns, fail_if, raise,
}
use gin_bear.Tasks.Rows.{update-miss, count-miss, find-fits}

abbrev pub Available : Env → Type 0
Available env = (site : Site) (k : ℕ) → env.fault site k ≡ none

module _ (env : Env) (available : Available env) where
  pub statement_runs :
      {A : Type 0} (site : Site) (k : ℕ) (run : Db → Db × Result A) (db : Db)
      → statement env site k run db ≡ run db
  unfolding statement
  statement_runs site k run db = rw (available site k, statement)

  transact_once_runs :
      {A : Type 0} (k : ℕ) (body : M A) (db : Db) {r : Db} {a : A}
      → body db ≡ (r, ok a)
      → transact_once env k body db ≡ (r, ok a)
  unfolding transact_once ◌>>=◌
  transact_once_runs k body db e =
      rw (statement_runs tx_begin k (return tt) db, e)
        (rw (statement_runs tx_commit k (return tt) _))

  -- The first attempt of a transaction whose body succeeds is the last.
  pub transact_runs :
      {A : Type 0} (body : ℕ → M A) (db : Db) {r : Db} {a : A}
      → body 1 db ≡ (r, ok a)
      → transact env body db ≡ (r, ok a)
  unfolding transact transact_from
  transact_runs body db e = rw (transact_once_runs 1 (body 1) db e)

  -- A conditional write whose condition no row meets writes nothing.
  pub update_where_misses :
      (k : ℕ) (new : Task) (p : Task → Bool) (db : Db)
      → any p db.tasks ≡ false
      → update_where env k new p db ≡ (db, ok false)
  unfolding update_where update_tasks ◌>>=◌
  update_where_misses k new p db miss = rw (
    statement_runs update_task k _ db,
    update-miss p (set_columns new) db.tasks miss,
    count-miss p db.tasks miss,
  )

-- A read leaves the database as it is, whatever it returns.
pub get-state : (env : Env) (k : ℕ) (id : String) (db : Db) → (get env k id db).0 ≡ db
unfolding get select_tasks statement or_no_rows
get-state env k id db = elim (Option-cases (env.fault select_task k)) [
  | inr (x, e) ↦ rw (e, statement)
  | inl e ↦
      rw (e, statement)
        (elim (Option-cases (find (λ t. t.id == id) db.tasks)) [
          | inl missing ↦ rw (missing, or_no_rows)
          | inr (t, found) ↦ rw (found, or_no_rows)
        ])
]

-- A call that stops at a check or a read ends where it stood, and otherwise where its rest ends.
module _ (P : Db → Type 0) {B : Type 0} (db : Db) (stays : P db) where
  pub stop-fail_if : (t : Bool) (e : Err) (m : M B) → P (m db).0 → P ((fail_if t e >> m) db).0
  unfolding ◌>>=◌ fail_if
  stop-fail_if true e m h = stays
  stop-fail_if false e m h = h

  pub stop-raise : (o : Option Err) (m : M B) → P (m db).0 → P ((raise o >> m) db).0
  unfolding ◌>>=◌ raise
  stop-raise none m h = h
  stop-raise (some e) m h = stays

  pub stop-get :
      (env : Env) (k : ℕ) (id : String) (f : Task → M B)
      → ((t : Task) → (t.id == id) ≡ true → P (f t db).0)
      → P ((get env k id >>= f) db).0
  unfolding ◌>>=◌ get select_tasks statement or_no_rows
  stop-get env k id f h = elim (Option-cases (env.fault select_task k)) [
    | inr (x, e) ↦ rw (e, statement) stays
    | inl e ↦
        rw (e, statement)
          (elim (Option-cases (find (λ t. t.id == id) db.tasks)) [
            | inl missing ↦ rw (missing, or_no_rows) stays
            | inr (t, found) ↦ rw (found, or_no_rows) (h t (find-fits _ db.tasks found))
          ])
  ]

  pub stop-if :
      (b : Bool) (x y : M B)
      → (b ≡ true → P (x db).0)
      → (b ≡ false → P (y db).0)
      → P ((if b then x else y) db).0
  stop-if true x y h k = h refl
  stop-if false x y h k = k refl
