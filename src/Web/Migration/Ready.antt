-- ===== src/Web/Migration/Ready.antt =====
-- The statements, the lock and the preparation of pkg/bear/migration.go where the database refuses nothing.
use Prim.Native.String.{String}
use text.Mathlib.TextEquality.{eq_iff}
use gin_bear.Base.{ℕ, ◌≡◌, refl, ap, ◌∙◌, true, Option, none, some}
use gin_bear.Web.Migration.{
  Err, Form, no_table, old_table, new_table, Layout, Site, create_history, probe_history,
  alter_history, create_lock, probe_lock, alter_lock, begin_tx, commit_tx, Db, Env, Action, next,
  ◌then_run◌, done, unless_fault, statement, executed, run_sql, settle, in_tx, find_row, is_dirty,
  reject_dirty,
}
use gin_bear.Web.Migration.Names.{is_table_name, is_supported}
use gin_bear.Web.Migration.Lock.{
  or_default, created, on_history, on_locks, ensure_column, ensure_table, ensure_lock_table,
  acquire_lock, release_lock, released_after, with_lock, prepare, check_runner,
}
use gin_bear.Web.Migration.History.{earliest_dirty-clean}

-- A runner whose configuration is accepted and whose database refuses no statement.
pub record Ready {Schema : Type 0} (env : Env Schema) : Type 0 where
  pub connected : env.has_database ≡ true
  pub supported : is_supported env.dialect ≡ true
  pub history_name : is_table_name (or_default env.history_table "schema_migrations") ≡ true
  pub lock_name : is_table_name (or_default env.lock_table "schema_migration_locks") ≡ true
  pub quiet : (site : Site) (k : ℕ) → env.fault site k ≡ none

-- The layout that a run leaves.
abbrev pub ready_layout : Layout
ready_layout = record { history = new_table; locks = new_table }

ensure_column-ready :
    (form : Form) → ensure_column none none none (created form) ≡ (new_table, none)
unfolding ensure_column
ensure_column-ready no_table = refl
ensure_column-ready old_table = refl
ensure_column-ready new_table = refl

module _ {Schema : Type 0} (env : Env Schema) (ready : Ready env) where
  pub then_run-passes :
      (m k : Action Schema) (db mid : Db Schema) {end : Db Schema × Option Err}
      → m db ≡ (mid, none)
      → k mid ≡ end
      → (m then_run k) db ≡ end
  then_run-passes m k db mid h h' = ap (λ p. next p k) h ∙ h'

  pub statement-ready :
      (site : Site) (k : ℕ) (run : Action Schema) (db : Db Schema)
      → statement env site k run db ≡ run db
  unfolding statement
  statement-ready site k run db = rw (ready.quiet site k) refl

  pub run_sql-passes :
      (k : ℕ) (sql : String) (db : Db Schema) (s : Schema)
      → env.exec k sql db.schema ≡ (s, none)
      → run_sql env k sql db ≡ (record db { schema = s }, none)
  unfolding run_sql
  run_sql-passes k sql db s ran = ap (executed db) ran

  pub in_tx-ready :
      (k : ℕ) (body : Action Schema) (db end : Db Schema)
      → body db ≡ (end, none)
      → in_tx env k body db ≡ (end, none)
  unfolding in_tx
  in_tx-ready k body db end h =
      statement-ready begin_tx k _ db
      ∙ ap (settle db) (
          then_run-passes body (statement env commit_tx k done) db end h
            (statement-ready commit_tx k done end))

  pub check_runner-ready : (db : Db Schema) → check_runner env db ≡ (db, none)
  unfolding check_runner
  check_runner-ready db = rw ready.connected (rw ready.supported refl)

  abbrev pub prepared : Db Schema → Db Schema
  prepared db = record db { layout = ready_layout }

  column-ready :
      (probe add again : Option String) (form : Form)
      → probe ≡ none
      → add ≡ none
      → again ≡ none
      → ensure_column probe add again (created form) ≡ (new_table, none)
  column-ready probe add again form p a g = rw (p, a, g) (ensure_column-ready form)

  with_history : Db Schema → Db Schema
  with_history db = record db { layout = record { history = new_table; locks = db.layout.locks } }

  ensure_table-ready : (db : Db Schema) → ensure_table env db ≡ (with_history db, none)
  unfolding ensure_table with_history
  ensure_table-ready db =
      statement-ready create_history 0 _ db
      ∙ ap (on_history db) (
          column-ready _ _ _ db.layout.history (ready.quiet probe_history 0)
            (ready.quiet alter_history 0) (ready.quiet probe_history 1))

  ensure_lock_table-ready :
      (db : Db Schema) → ensure_lock_table env (with_history db) ≡ (prepared db, none)
  unfolding ensure_lock_table with_history
  ensure_lock_table-ready db =
      statement-ready create_lock 0 _ _
      ∙ ap (on_locks (with_history db)) (
          column-ready _ _ _ db.layout.locks (ready.quiet probe_lock 0) (ready.quiet alter_lock 0)
            (ready.quiet probe_lock 1))

  prepare-ready : (db : Db Schema) → prepare env db ≡ (prepared db, none)
  unfolding prepare
  prepare-ready db = rw ready.history_name (
      then_run-passes (ensure_table env) _ db (with_history db) (ensure_table-ready db)
        (rw ready.lock_name (ensure_lock_table-ready db)))

  reject_dirty-ready :
      (db : Db Schema) → find_row is_dirty db.rows ≡ none → reject_dirty env db ≡ (db, none)
  unfolding reject_dirty statement
  reject_dirty-ready db clean =
      rw ready.quiet (rw (earliest_dirty-clean env.less db.rows clean, unless_fault) refl)

  -- The lock is taken before the body and given back after it.
  pub locked-ready :
      (body : Action Schema) (db end : Db Schema)
      → db.lock ≡ none
      → find_row is_dirty db.rows ≡ none
      → body (record db { lock = some env.owner; layout = ready_layout })
        ≡ (record end { lock = some env.owner }, none)
      → (prepare env then_run with_lock env (reject_dirty env then_run body)) db
        ≡ (record end { lock = none }, none)
  unfolding with_lock acquire_lock release_lock statement
  locked-ready body db end free clean h =
      let held = record (prepared db) { lock = some env.owner } in
      let run =
        then_run-passes (reject_dirty env) body held held (reject_dirty-ready held clean) h in
      let acquired : acquire_lock env (prepared db) ≡ (held, none) =
        rw ready.quiet (rw free refl) in
      then_run-passes (prepare env) _ db (prepared db) (prepare-ready db) (
        then_run-passes (acquire_lock env) _ (prepared db) held acquired (
          ap (released_after env) run
          ∙ rw ready.quiet (rw ((eq_iff env.owner env.owner).1 refl) refl)))
