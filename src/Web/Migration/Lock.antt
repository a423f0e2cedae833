-- ===== src/Web/Migration/Lock.antt =====
-- The lock of pkg/bear/migration.go, and the operations that take it: what comes before a run, the
-- deferred release, `ForceUnlock` and `ForceMigrationState`.
use Prim.Native.String.{String}
use text.Mathlib.Text.{◌==◌}
use gin_bear.Base.{not, Bool, true, false, Option, none, some, eqb, if◌then◌else◌}
use gin_bear.Base.Text.{is_blank, is_empty}
use gin_bear.Web.Migration.{
  Err, no_database, unsupported_dialect, bad_table_name, version_required, lock_held,
  owner_mismatch, no_dirty_row, column_unavailable, database, Form, no_table, old_table, new_table,
  create_history, probe_history, alter_history, create_lock, probe_lock, alter_lock, take_lock,
  free_lock, read_owner, force_row, Db, Env, Action, ◌then_run◌, refuse_if, statement, fits,
  count_rows, update_rows, delete_rows, set_dirty,
}
use gin_bear.Web.Migration.Names.{is_table_name, is_supported}

-- A table name, or its default.
abbrev pub or_default : String → String → String
or_default name default_name = if is_empty name then default_name else name

-- `CREATE TABLE IF NOT EXISTS`.
abbrev pub created : Form → Form
created no_table = new_table
created old_table = old_table
created new_table = new_table

abbrev pub is_current : Form → Bool
is_current new_table = true
is_current _ = false

-- `migrationTableHasDirty` and `lockTableHasOwner`: a query that fails says that there is no column.
abbrev pub has_column : Option String → Form → Bool
has_column none form = is_current form
has_column (some text) form = false

-- `ALTER TABLE … ADD COLUMN`.
abbrev pub alter : Option String → Form → Form × Option String
alter (some text) form = (form, some text)
alter none old_table = (new_table, none)
alter none new_table = (new_table, some "duplicate column")
alter none no_table = (no_table, some "no such table")

abbrev pub unavailable : Option String → Err
unavailable none = column_unavailable
unavailable (some text) = database text

abbrev pub altered : Option String → Form × Option String → Form × Option Err
altered again (form, e) = (form, if has_column again form then none else some (unavailable e))

-- `ensureTable` and `ensureLockTable` after the CREATE: the column is looked for, added, and looked for
-- again, as another runner may have added it meanwhile.
unfoldable pub ensure_column :
    Option String → Option String → Option String → Form → Form × Option Err
ensure_column probe add again form =
    if has_column probe form then (form, none) else altered again (alter add form)

module _ {Schema : Type 0} where
  -- `acquireLock`.
  unfoldable pub acquire_lock : Env Schema → Action Schema
  acquire_lock env = statement env take_lock 0 λ db. elim db.lock [
    | some owner ↦ (db, some lock_held)
    | none ↦ (record db { lock = some env.owner }, none)
  ]

  -- `releaseLock`: the row goes only if its owner is the one given.
  unfoldable pub release_lock : Env Schema → String → Action Schema
  release_lock env owner = statement env free_lock 0 λ db. elim db.lock [
    | none ↦ (db, some owner_mismatch)
    | some current ↦
        if current == owner then (record db { lock = none }, none) else (db, some owner_mismatch)
  ]

  abbrev pub first_error : Option Err → Db Schema × Option Err → Db Schema × Option Err
  first_error none released = released
  first_error (some e) (db, released) = (db, some e)

  abbrev pub released_after : Env Schema → Db Schema × Option Err → Db Schema × Option Err
  released_after env (db, e) = first_error e (release_lock env env.owner db)

  -- The lock around a body, with the deferred release.
  unfoldable pub with_lock : Env Schema → Action Schema → Action Schema
  with_lock env body = acquire_lock env then_run λ db. released_after env (body db)

  abbrev pub on_history : Db Schema → Form × Option Err → Db Schema × Option Err
  on_history db (form, e) =
      (record db { layout = record { history = form; locks = db.layout.locks } }, e)

  abbrev pub on_locks : Db Schema → Form × Option Err → Db Schema × Option Err
  on_locks db (form, e) =
      (record db { layout = record { history = db.layout.history; locks = form } }, e)

  -- `ensureTable`.
  unfoldable pub ensure_table : Env Schema → Action Schema
  ensure_table env = statement env create_history 0 λ db. on_history db (
      ensure_column (env.fault probe_history 0) (env.fault alter_history 0)
        (env.fault probe_history 1) (created db.layout.history))

  -- `ensureLockTable`.
  unfoldable pub ensure_lock_table : Env Schema → Action Schema
  ensure_lock_table env = statement env create_lock 0 λ db. on_locks db (
      ensure_column (env.fault probe_lock 0) (env.fault alter_lock 0) (env.fault probe_lock 1)
        (created db.layout.locks))

  -- What `up`, `down` and `forceMigrationState` do before they take the lock.
  unfoldable pub prepare : Env Schema → Action Schema
  prepare env =
      refuse_if (not (is_table_name (or_default env.history_table "schema_migrations")))
        bad_table_name
      then_run ensure_table env
      then_run refuse_if (not (is_table_name (or_default env.lock_table "schema_migration_locks")))
          bad_table_name
      then_run ensure_lock_table env

  unfoldable pub check_runner : Env Schema → Action Schema
  check_runner env =
      refuse_if (not env.has_database) no_database
      then_run refuse_if (not (is_supported env.dialect)) unsupported_dialect

  -- `forceUnlock`: the owner is read first, and only that owner's row is deleted. `meanwhile` is what
  -- others commit in between.
  unfoldable pub force_unlock : (Db Schema → Db Schema) → Env Schema → Action Schema
  force_unlock meanwhile env =
      check_runner env
      then_run refuse_if (not (is_table_name (or_default env.lock_table "schema_migration_locks")))
          bad_table_name
      then_run ensure_lock_table env
      then_run statement env read_owner 0 λ db. elim db.lock [
        | none ↦ (db, none)
        | some owner ↦ release_lock env owner (meanwhile db)
      ]

  abbrev pub forced : Env Schema → String → Bool → Action Schema
  forced env version applied = statement env force_row 0 λ db. (
    record db {
      rows =
          if applied
          then update_rows (fits version true) (set_dirty false) db.rows
          else delete_rows (fits version true) db.rows;
    },
    if eqb (count_rows (fits version true) db.rows) 1 then none else some no_dirty_row,
  )

  -- `forceMigrationState`.
  unfoldable pub force_state : Env Schema → String → Bool → Action Schema
  force_state env version applied =
      refuse_if (not env.has_database) no_database
      then_run refuse_if (is_blank version) version_required
      then_run refuse_if (not (is_supported env.dialect)) unsupported_dialect
      then_run prepare env
      then_run with_lock env (forced env version applied)
