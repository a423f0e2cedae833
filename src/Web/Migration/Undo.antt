-- ===== src/Web/Migration/Undo.antt =====
-- One migration up and down again, of pkg/bear/migration.go.
use Prim.Native.String.{String}
use text.Mathlib.TextEquality.{eq_iff}
use gin_bear.Base.{
  ℕ, ◌≡◌, refl, sym, ap, ◌∙◌, inl, inr, Bool, true, false, Bool-cases, none, some, List, [], ◌∷◌,
  ◌++◌, any, All,
}
use gin_bear.Base.Int.{pos, leb_ℤ}
use gin_bear.Base.Text.{is_blank}
use gin_bear.Web.Migration.{
  Migration, Row, select_latest, Db, Env, statement, run_sql, fits, find_row, is_dirty, set_dirty,
  row_of, insert_history, turn_row,
}
use gin_bear.Web.Migration.Names.{runs_outside_tx}
use gin_bear.Web.Migration.Lock.{check_runner}
use gin_bear.Web.Migration.Up.{apply_up_outside, apply_up, up_all, up}
use gin_bear.Web.Migration.Down.{
  insert_desc, latest_first, by_version, plan_rollback, apply_down_outside, apply_down, down_all,
  roll_back, down,
}
use gin_bear.Web.Migration.History.{
  has_version, any-none, find_row-clean, any-fits, fits-row_of, update_rows-last, delete_rows-last,
  count_rows-last,
}
use gin_bear.Web.Migration.Ready.{
  Ready, ready_layout, then_run-passes, statement-ready, run_sql-passes, in_tx-ready,
  check_runner-ready, locked-ready, prepared,
}

-- The row of the latest version comes first.
latest_first-last :
    (less : String → String → Bool) (rows : List Row) (r : Row)
    → find_row is_dirty rows ≡ none
    → r.dirty ≡ false
    → All (λ (x : Row). less x.version r.version ≡ true) rows
    → (rest : List Row) × (latest_first less (rows ++ r ∷ []) ≡ r ∷ rest)
unfolding latest_first insert_desc
latest_first-last less [] r clean is_clean later = ([], rw is_clean refl)
latest_first-last less (x ∷ rows) r clean is_clean (first, later) = elim (Bool-cases x.dirty) [
  | inl dirty ↦ absurd (let h = rw dirty at clean in cc)
  | inr other ↦
      let (rest, h) = latest_first-last less rows r (rw other at clean) is_clean later in
      (insert_desc less x rest, rw other (rw h (rw first refl)))
]

module _ {Schema : Type 0} (env : Env Schema) (ready : Ready env) where
  abbrev with_row : Bool → Migration → Schema → Db Schema → Db Schema
  with_row dirty m s db = record db { rows = db.rows ++ row_of dirty m ∷ []; schema = s }

  apply_up-ready :
      (k : ℕ) (m : Migration) (s : Schema) (db : Db Schema)
      → any (has_version m.version) db.rows ≡ false
      → env.exec k m.up_sql db.schema ≡ (s, none)
      → apply_up env k m db ≡ (with_row false m s db, none)
  unfolding apply_up apply_up_outside insert_history statement run_sql turn_row
  apply_up-ready k m s db fresh ran = elim (Bool-cases (runs_outside_tx env.dialect m.up_sql)) [
    | inl outside ↦
        let others = any-fits m.version true db.rows fresh in
        let one =
          count_rows-last (fits m.version true) db.rows (row_of true m) others
            (fits-row_of true m) in
        let cleared =
          update_rows-last (fits m.version true) (set_dirty false) db.rows (row_of true m) others
            (fits-row_of true m) in
        rw outside (rw ready.quiet (rw fresh (rw ran (rw ready.quiet (rw one (rw cleared refl))))))
    | inr inside ↦ rw inside (
        in_tx-ready env ready k _ db (with_row false m s db) (
          then_run-passes env ready (run_sql env k m.up_sql) _ db (record db { schema = s })
            (run_sql-passes env ready k m.up_sql db s ran) (rw ready.quiet (rw fresh refl))))
  ]

  module _ (k : ℕ) (m : Migration) (s s' : Schema) (db : Db Schema)
      (fresh : any (has_version m.version) db.rows ≡ false) where
    apply_down-ready :
        env.exec k m.down_sql s ≡ (s', none)
        → apply_down env k m (with_row false m s db) ≡ (record db { schema = s' }, none)
    unfolding apply_down apply_down_outside statement run_sql turn_row
    apply_down-ready ran = elim (Bool-cases (runs_outside_tx env.dialect m.down_sql)) [
      | inl outside ↦
          let clean = any-fits m.version false db.rows fresh in
          let dirty = any-fits m.version true db.rows fresh in
          let one =
            count_rows-last (fits m.version false) db.rows (row_of false m) clean
              (fits-row_of false m) in
          let marked =
            update_rows-last (fits m.version false) (set_dirty true) db.rows (row_of false m) clean
              (fits-row_of false m) in
          let still_one =
            count_rows-last (fits m.version true) db.rows (row_of true m) dirty
              (fits-row_of true m) in
          let gone =
            delete_rows-last (fits m.version true) db.rows (row_of true m) dirty
              (fits-row_of true m) in
          rw outside (
            rw ready.quiet
              (rw one (rw marked (rw ran (rw ready.quiet (rw still_one (rw gone refl)))))))
      | inr inside ↦
          let clean = any-fits m.version false db.rows fresh in
          let gone =
            delete_rows-last (fits m.version false) db.rows (row_of false m) clean
              (fits-row_of false m) in
          rw inside (
            in_tx-ready env ready k _ (with_row false m s db) (record db { schema = s' })
              (then_run-passes env ready (run_sql env k m.down_sql) _ (with_row false m s db)
                (with_row false m s' db)
                (run_sql-passes env ready k m.down_sql (with_row false m s db) s' ran)
                (rw ready.quiet (rw gone refl))))
    ]

  -- `Up` with one new migration adds its row.
  up-ready :
      (m : Migration) (s : Schema) (db : Db Schema)
      → db.lock ≡ none
      → find_row is_dirty db.rows ≡ none
      → any (has_version m.version) db.rows ≡ false
      → env.exec 0 m.up_sql db.schema ≡ (s, none)
      → up env (m ∷ []) db ≡ (
        record db {
          rows = db.rows ++ row_of false m ∷ [];
          schema = s;
          lock = none;
          layout = ready_layout;
        },
        none,
      )
  unfolding up up_all
  up-ready m s db free clean fresh ran =
      let held = record (prepared env ready db) { lock = some env.owner } in
      let applied = apply_up-ready 0 m s held fresh ran in
      then_run-passes env ready (check_runner env) _ db db (check_runner-ready env ready db) (
        locked-ready env ready (up_all env 0 (m ∷ [])) db
          (with_row false m s (prepared env ready db)) free clean
          (rw ready.quiet (rw (any-none (has_version m.version) db.rows fresh) (rw applied refl))))

  -- `Down` by one step rolls back the migration of the last row.
  down-ready :
      (m : Migration) (ms : List Migration) (s s' : Schema) (db : Db Schema)
      → db.lock ≡ none
      → find_row is_dirty db.rows ≡ none
      → any (has_version m.version) db.rows ≡ false
      → All (λ (x : Row). env.less x.version m.version ≡ true) db.rows
      → by_version m.version ms ≡ some m
      → is_blank m.down_sql ≡ false
      → env.exec 0 m.down_sql s ≡ (s', none)
      → down env ms (pos 1) (with_row false m s db)
        ≡ (record db { schema = s'; lock = none; layout = ready_layout }, none)
  unfolding down roll_back plan_rollback down_all leb_ℤ
  down-ready m ms s s' db free clean fresh later loaded written ran =
      let start = with_row false m s db in
      let held = record (prepared env ready db) { lock = some env.owner } in
      let undone = apply_down-ready 0 m s s' held fresh ran in
      let (rest, latest) = latest_first-last env.less db.rows (row_of false m) clean refl later in
      then_run-passes env ready (check_runner env) _ start start
        (check_runner-ready env ready start)
        (locked-ready env ready (roll_back env 1 ms) start
          (record (prepared env ready db) { schema = s' }) free
          (find_row-clean db.rows (row_of false m) clean refl)
          (statement-ready env ready select_latest 0 _ _
            ∙ rw latest
                (rw loaded (rw ((eq_iff m.name m.name).1 refl) (rw written (rw undone refl))))))

  -- A migration that was not applied, and whose version comes after every one in the history, is
  -- undone by one step of `Down`: `Up` succeeds, and the `Down` after it, with the migration loaded and
  -- a text that takes the schema back, leaves the history, the schema and the lock as they were; the
  -- runner's two tables have their present form, whether they had it before or not. The lock is free,
  -- no row is dirty, and the database refuses no statement.
  pub down-up :
      (m : Migration) (ms : List Migration) (s : Schema) (db : Db Schema)
      → db.lock ≡ none
      → find_row is_dirty db.rows ≡ none
      → any (has_version m.version) db.rows ≡ false
      → All (λ (x : Row). env.less x.version m.version ≡ true) db.rows
      → by_version m.version ms ≡ some m
      → is_blank m.down_sql ≡ false
      → env.exec 0 m.up_sql db.schema ≡ (s, none)
      → env.exec 0 m.down_sql s ≡ (db.schema, none)
      → ((up env (m ∷ []) db).1 ≡ none)
        × (down env ms (pos 1) (up env (m ∷ []) db).0 ≡ (record db { layout = ready_layout }, none))
  down-up m ms s db free clean fresh later loaded written ran back =
      let start = record db { lock = none; layout = ready_layout } in
      let upped = up-ready m s db free clean fresh ran in
      let downed = down-ready m ms s db.schema start refl clean fresh later loaded written back in
      (
        ap (λ p. p.1) upped,
        ap (λ p. down env ms (pos 1) p.0) upped
            ∙ downed
            ∙ ap (λ lock. (record db { lock = lock; layout = ready_layout }, none)) (sym free),
      )
