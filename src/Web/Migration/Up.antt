-- ===== src/Web/Migration/Up.antt =====
-- `Up` of pkg/bear/migration.go.
use Prim.Native.String.{String}
use text.Mathlib.Text.{◌==◌}
use gin_bear.Base.{ℕ, ◌+◌, true, false, Option, none, some, List, [], ◌∷◌, if◌then◌else◌}
use gin_bear.Web.Migration.{
  Migration, Row, Err, dirty_migration, applied_as, changed_concurrently, database, select_row,
  clear_dirty, Db, Env, Action, ◌then_run◌, refuse, run_sql, in_tx, insert_history, turn_row,
  find_row, reject_dirty,
}
use gin_bear.Web.Migration.Names.{runs_outside_tx}
use gin_bear.Web.Migration.Lock.{check_runner, prepare, with_lock}

-- What `isApplied` reports.
pub data Applied : Type 0 where
  is_applied not_applied : Applied
  cannot_tell : Err → Applied

abbrev pub applied_row : Migration → Option Row → Applied
applied_row m none = not_applied
applied_row m (some r) =
    if r.dirty
    then cannot_tell (dirty_migration m.version)
    else if r.name == m.name
    then is_applied
    else cannot_tell (applied_as r.name)

module _ {Schema : Type 0} where
  abbrev pub look_up : Option String → Migration → Db Schema → Applied
  look_up (some text) m db = cannot_tell (database text)
  look_up none m db = applied_row m (find_row (λ (r : Row). r.version == m.version) db.rows)

  -- `applyUpNonTransactional`: the row is dirty while the text runs.
  unfoldable pub apply_up_outside : Env Schema → ℕ → Migration → Action Schema
  apply_up_outside env k m =
      insert_history env k true m
      then_run run_sql env k m.up_sql
      then_run turn_row env clear_dirty k m.version false changed_concurrently

  -- `applyUp`.
  unfoldable pub apply_up : Env Schema → ℕ → Migration → Action Schema
  apply_up env k m =
      if runs_outside_tx env.dialect m.up_sql
      then apply_up_outside env k m
      else in_tx env k (run_sql env k m.up_sql then_run insert_history env k false m)

  abbrev pub unless_applied : Applied → Action Schema → Action Schema → Action Schema
  unless_applied is_applied apply rest = rest
  unless_applied not_applied apply rest = apply then_run rest
  unless_applied (cannot_tell e) apply rest = refuse e

  -- The loop of `up`, from round `k` on.
  unfoldable pub up_all : Env Schema → ℕ → List Migration → Action Schema
  up_all env k [] db = (db, none)
  up_all env k (m ∷ ms) db =
      unless_applied (look_up (env.fault select_row k) m db) (apply_up env k m)
        (up_all env (k + 1) ms) db

  -- `up`.
  unfoldable pub up : Env Schema → List Migration → Action Schema
  up env migrations =
      check_runner env
      then_run prepare env
      then_run with_lock env (reject_dirty env then_run up_all env 0 migrations)
