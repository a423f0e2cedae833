-- ===== src/Web/Migration/Down.antt =====
-- `Down` of pkg/bear/migration.go.
use Prim.Native.String.{String}
use text.Mathlib.Text.{◌==◌}
use gin_bear.Base.{
  ℕ, zero, suc, ◌+◌, not, Bool, true, false, Option, none, some, List, [], ◌∷◌, eqb, if◌then◌else◌,
}
use gin_bear.Base.Int.{ℤ, pos, pos_part, leb_ℤ}
use gin_bear.Base.Text.{is_blank}
use gin_bear.Web.Migration.{
  Migration, Row, Err, not_loaded, loaded_as, down_is_empty, changed_concurrently, select_latest,
  mark_dirty, delete_row, Env, Action, next, ◌then_run◌, done, refuse, statement, run_sql, in_tx,
  turn_row, fits, count_rows, delete_rows, reject_dirty,
}
use gin_bear.Web.Migration.Names.{runs_outside_tx}
use gin_bear.Web.Migration.Lock.{check_runner, prepare, with_lock}

-- `ORDER BY version DESC`.
unfoldable pub insert_desc : (String → String → Bool) → Row → List Row → List Row
insert_desc less r [] = r ∷ []
insert_desc less r (x ∷ xs) =
    let rest = insert_desc less r xs in if less r.version x.version then x ∷ rest else r ∷ x ∷ xs

-- The clean rows, latest version first.
unfoldable pub latest_first : (String → String → Bool) → List Row → List Row
latest_first less [] = []
latest_first less (r ∷ rs) =
    let rest = latest_first less rs in if r.dirty then rest else insert_desc less r rest

-- `LIMIT ?`.
abbrev pub first_rows : ℕ → List Row → List Row
first_rows zero rs = []
first_rows (suc n) [] = []
first_rows (suc n) (r ∷ rs) = r ∷ first_rows n rs

-- `byVersion[version]`: the last migration of that version.
unfoldable pub by_version : String → List Migration → Option Migration
by_version version [] = none
by_version version (m ∷ ms) =
    let rest = by_version version ms in
    elim rest [ some later ↦ some later | none ↦ if m.version == version then some m else none ]

-- A rollback plan, or the first reason against it.
pub data Plan : Type 0 where
  plan : List Migration → Plan
  no_plan : Err → Plan

abbrev pub plan_row : Row → Option Migration → Plan → Plan
plan_row r none rest = no_plan (not_loaded r.version)
plan_row r (some m) rest =
    if not (m.name == r.name)
    then no_plan (loaded_as m.name)
    else if is_blank m.down_sql
    then no_plan (down_is_empty r.version)
    else elim rest [ plan ms ↦ plan (m ∷ ms) | no_plan e ↦ no_plan e ]

-- The loop of `down` over the applied rows.
unfoldable pub plan_rollback : List Migration → List Row → Plan
plan_rollback migrations [] = plan []
plan_rollback migrations (r ∷ rs) =
    plan_row r (by_version r.version migrations) (plan_rollback migrations rs)

module _ {Schema : Type 0} where
  -- `applyDownNonTransactional`: the row is dirty while the text runs.
  unfoldable pub apply_down_outside : Env Schema → ℕ → Migration → Action Schema
  apply_down_outside env k m =
      turn_row env mark_dirty k m.version true changed_concurrently
      then_run run_sql env k m.down_sql
      then_run statement env delete_row k λ db. (
        record db { rows = delete_rows (fits m.version true) db.rows },
        if eqb (count_rows (fits m.version true) db.rows) 1
            then none
            else some changed_concurrently,
      )

  -- `applyDown`.
  unfoldable pub apply_down : Env Schema → ℕ → Migration → Action Schema
  apply_down env k m =
      if runs_outside_tx env.dialect m.down_sql
      then apply_down_outside env k m
      else in_tx env k (
          run_sql env k m.down_sql
          then_run statement env delete_row k
              λ db. (record db { rows = delete_rows (fits m.version false) db.rows }, none))

  -- The loop of `down` over the plan, from round `k` on.
  unfoldable pub down_all : Env Schema → ℕ → List Migration → Action Schema
  down_all env k [] db = (db, none)
  down_all env k (m ∷ ms) db = next (apply_down env k m db) (down_all env (k + 1) ms)

  abbrev pub run_plan : Env Schema → Plan → Action Schema
  run_plan env (plan ms) = down_all env 0 ms
  run_plan env (no_plan e) = refuse e

  -- The rows that `latestApplied` reads, planned and rolled back.
  unfoldable pub roll_back : Env Schema → ℕ → List Migration → Action Schema
  roll_back env steps migrations = statement env select_latest 0 λ db.
      run_plan env (plan_rollback migrations (first_rows steps (latest_first env.less db.rows))) db

  -- `down`.
  unfoldable pub down : Env Schema → List Migration → ℤ → Action Schema
  down env migrations steps =
      check_runner env
      then_run (if leb_ℤ steps (pos 0)
          then done
          else prepare env
            then_run with_lock env
                (reject_dirty env then_run roll_back env (pos_part steps) migrations))
