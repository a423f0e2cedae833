-- ===== src/Web/Migration.antt =====
-- The rows, the errors and the statements of pkg/bear/migration.go. The schema that the migrations
-- change is the database's own; between its lock and its release a runner is alone.
pub mod Names
pub mod Up
pub mod Down
pub mod Lock
pub mod Honest
pub mod History
pub mod Complete
pub mod Ready
pub mod Undo
pub mod Exclusion
mod Tests
use Prim.Native.String.{String}
use text.Mathlib.Text.{◌==◌}
use gin_bear.Base.{
  ℕ, suc, ◌+◌, ◌&&◌, not, Bool, true, false, Option, none, some, List, [], ◌∷◌, ◌++◌, any, eqb,
  if◌then◌else◌,
}

-- `MigrationDialect`; `other_dialect` is any other text.
pub data Dialect : Type 0 where
  sqlite mysql postgresql other_dialect : Dialect

-- `Migration`.
pub record Migration : Type 0 where
  pub version : String
  pub name : String
  pub up_sql : String
  pub down_sql : String

-- A row of the history table.
pub record Row : Type 0 where
  pub version : String
  pub name : String
  pub dirty : Bool

pub data Err : Type 0 where
  no_database unsupported_dialect bad_table_name version_required : Err
  database : String → Err
  lock_held owner_mismatch changed_concurrently no_dirty_row : Err
  dirty_migration : String → Err
  applied_as : String → Err
  not_loaded loaded_as down_is_empty : String → Err
  column_unavailable : Err

-- The statements of a runner that the database may refuse.
pub data Site : Type 0 where
  create_history probe_history alter_history create_lock probe_lock alter_lock : Site
  take_lock free_lock read_owner : Site
  check_dirty select_row select_latest insert_row mark_dirty clear_dirty delete_row force_row : Site
  begin_tx commit_tx : Site

-- A table of the runner's: not there, of an older form, or of the current one. The older history has no
-- column `dirty`, the older lock table no column `owner`.
pub data Form : Type 0 where
  no_table old_table new_table : Form

pub record Layout : Type 0 where
  pub history : Form
  pub locks : Form

-- The database: the history, the owner of the one lock row, the schema, and the forms of the runner's
-- two tables. A row of an older table stands with what the new column is to hold by default: it is not
-- dirty, and the owner of the lock is `legacyMigrationLockOwner`.
pub record Db (Schema : Type 0) : Type 0 where
  pub rows : List Row
  pub lock : Option String
  pub schema : Schema
  pub layout : Layout

-- What a runner takes from outside: its configuration, a fresh owner token, the statements that the
-- database refuses (by the round of the loop), how the database runs the text of a migration, which
-- may fail half-way, and how it orders texts.
pub record Env (Schema : Type 0) : Type 0 where
  pub has_database : Bool
  pub dialect : Dialect
  pub history_table : String
  pub lock_table : String
  pub owner : String
  pub fault : Site → ℕ → Option String
  pub exec : ℕ → String → Schema → Schema × Option String
  pub less : String → String → Bool

abbrev pub Action : Type 0 → Type 0
Action Schema = Db Schema → Db Schema × Option Err

module _ {Schema : Type 0} where
  abbrev pub next : Db Schema × Option Err → Action Schema → Db Schema × Option Err
  next (db, none) k = k db
  next (db, some e) k = (db, some e)

  -- `if err := m; err != nil { return err }`.
  infixr 5 ◌then_run◌
  abbrev pub ◌then_run◌ : Action Schema → Action Schema → Action Schema
  ◌then_run◌ m k db = next (m db) k

  abbrev pub done : Action Schema
  done db = (db, none)

  abbrev pub refuse : Err → Action Schema
  refuse e db = (db, some e)

  abbrev pub refuse_if : Bool → Err → Action Schema
  refuse_if true e = refuse e
  refuse_if false e = done

  abbrev pub unless_fault : Option String → Action Schema → Action Schema
  unless_fault none run = run
  unless_fault (some text) run = refuse (database text)

  -- A statement that the database may refuse; a refused one has no effect.
  unfoldable pub statement : Env Schema → Site → ℕ → Action Schema → Action Schema
  statement env site k run = unless_fault (env.fault site k) run

  abbrev pub executed : Db Schema → Schema × Option String → Db Schema × Option Err
  executed db (schema, none) = (record db { schema = schema }, none)
  executed db (schema, some text) = (record db { schema = schema }, some (database text))

  -- The text of a migration, run on the schema; what a failed one has done stays.
  unfoldable pub run_sql : Env Schema → ℕ → String → Action Schema
  run_sql env k sql db = executed db (env.exec k sql db.schema)

  abbrev pub settle : Db Schema → Db Schema × Option Err → Db Schema × Option Err
  settle db (db', none) = (db', none)
  settle db (db', some e) = (db, some e)

  -- `BeginTx`, the body, `Commit`, and the deferred `Rollback` of what was not committed.
  unfoldable pub in_tx : Env Schema → ℕ → Action Schema → Action Schema
  in_tx env k body =
      statement env begin_tx k (λ db. settle db ((body then_run statement env commit_tx k done) db))

-- `WHERE version = ? AND dirty = ?`.
abbrev pub fits : String → Bool → Row → Bool
fits version dirty row = row.version == version && (if dirty then row.dirty else not row.dirty)

abbrev pub count_rows : (Row → Bool) → List Row → ℕ
count_rows p [] = 0
count_rows p (r ∷ rs) = (if p r then 1 else 0) + count_rows p rs

abbrev pub update_rows : (Row → Bool) → (Row → Row) → List Row → List Row
update_rows p f [] = []
update_rows p f (r ∷ rs) = (if p r then f r else r) ∷ update_rows p f rs

abbrev pub delete_rows : (Row → Bool) → List Row → List Row
delete_rows p [] = []
delete_rows p (r ∷ rs) = let rest = delete_rows p rs in if p r then rest else r ∷ rest

abbrev pub find_row : (Row → Bool) → List Row → Option Row
find_row p [] = none
find_row p (r ∷ rs) = let rest = find_row p rs in if p r then some r else rest

abbrev pub is_dirty : Row → Bool
is_dirty row = row.dirty

abbrev pub set_dirty : Bool → Row → Row
set_dirty dirty row = record row { dirty = dirty }

abbrev pub earlier_of : (String → String → Bool) → Row → Option Row → Row
earlier_of less r none = r
earlier_of less r (some x) = if less x.version r.version then x else r

-- `WHERE dirty = TRUE ORDER BY version LIMIT 1`.
abbrev pub earliest_dirty : (String → String → Bool) → List Row → Option Row
earliest_dirty less [] = none
earliest_dirty less (r ∷ rs) =
    let rest = earliest_dirty less rs in if r.dirty then some (earlier_of less r rest) else rest

-- The history row of a migration.
abbrev pub row_of : Bool → Migration → Row
row_of dirty m = record { version = m.version; name = m.name; dirty = dirty }

module _ {Schema : Type 0} where
  -- `INSERT INTO history (version, name, dirty)`; the version is the primary key.
  unfoldable pub insert_history : Env Schema → ℕ → Bool → Migration → Action Schema
  insert_history env k dirty m = statement env insert_row k λ db.
      if any (λ (r : Row). r.version == m.version) db.rows
      then (db, some (database "duplicate key"))
      else (record db { rows = db.rows ++ row_of dirty m ∷ [] }, none)

  -- An UPDATE of the `dirty` column, which must change exactly one row.
  unfoldable pub turn_row : Env Schema → Site → ℕ → String → Bool → Err → Action Schema
  turn_row env site k version dirty e = statement env site k λ db. (
    record db { rows = update_rows (fits version (not dirty)) (set_dirty dirty) db.rows },
    if eqb (count_rows (fits version (not dirty)) db.rows) 1 then none else some e,
  )

  -- `rejectDirtyMigration`.
  unfoldable pub reject_dirty : Env Schema → Action Schema
  reject_dirty env = statement env check_dirty 0 λ db. elim (earliest_dirty env.less db.rows) [
    | none ↦ (db, none)
    | some r ↦ (db, some (dirty_migration r.version))
  ]
