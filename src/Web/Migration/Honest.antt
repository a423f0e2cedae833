-- ===== src/Web/Migration/Honest.antt =====
-- What `Up` of pkg/bear/migration.go leaves in the history and in the schema.
use Prim.Native.String.{String}
use text.Mathlib.Text.{◌==◌}
use mathlib.Core.List.{append-nil}
use gin_bear.Base.{
  ℕ, ◌≡◌, refl, sym, ◌⊎◌, inl, inr, Bool, true, false, Bool-cases, Option, none, some, List, [],
  ◌∷◌, ◌++◌, map, any, eqb, if◌then◌else◌, arith,
}
use gin_bear.Web.Migration.{
  Migration, Row, Err, database, changed_concurrently, clear_dirty, insert_row, begin_tx, commit_tx,
  Db, Env, Action, next, ◌then_run◌, unless_fault, statement, executed, run_sql, settle, in_tx,
  fits, count_rows, update_rows, is_dirty, set_dirty, row_of, insert_history, turn_row,
}
use gin_bear.Web.Migration.Names.{runs_outside_tx}
use gin_bear.Web.Migration.History.{any-fits, fits-row_of, count_rows-last, update_rows-last}
use gin_bear.Web.Migration.Up.{apply_up_outside, apply_up}

-- Whether a history has a dirty row.
abbrev pub has_dirty : List Row → Bool
has_dirty rows = any is_dirty rows

has_dirty-append : (rows more : List Row) → has_dirty more ≡ true → has_dirty (rows ++ more) ≡ true
has_dirty-append [] more h = h
has_dirty-append (r ∷ rows) more h = ground (arith, has_dirty-append rows more h)

module _ {Schema : Type 0} where
  -- The schema after the texts of some migrations, each run to its end.
  pub data Ran (env : Env Schema) : List Migration → Schema → Schema → Type 0 where
    ran_none : {s : Schema} → Ran env [] s s
    ran_one :
        {m : Migration} {ms : List Migration} {s s' s'' : Schema} (k : ℕ)
        → env.exec k m.up_sql s ≡ (s', none)
        → Ran env ms s' s''
        → Ran env (m ∷ ms) s s''

  -- The rows added are those of migrations whose texts ran to their ends, in order, and nothing else
  -- was done to the schema.
  pub record Recorded (env : Env Schema) (db db' : Db Schema) : Type 0 where
    pub migrations : List Migration
    pub rows : db'.rows ≡ db.rows ++ map (row_of false) migrations
    pub schema : Ran env migrations db.schema db'.schema

  -- Either that, or a dirty row is there.
  abbrev pub Honest : Env Schema → Db Schema → Db Schema → Type 0
  Honest env db db' = Recorded env db db' ⊎ (has_dirty db'.rows ≡ true)

  pub Recorded-refl : (env : Env Schema) (db : Db Schema) → Recorded env db db
  Recorded-refl env db = record {
    migrations = [];
    rows = sym (append-nil db.rows);
    schema = ran_none;
  }

  -- How one migration ends.
  pub data Ends (env : Env Schema) (m : Migration) (db : Db Schema)
      : Db Schema × Option Err → Type 0 where
    applies :
        {db' : Db Schema} (k : ℕ)
        → db'.rows ≡ db.rows ++ row_of false m ∷ []
        → env.exec k m.up_sql db.schema ≡ (db'.schema, none)
        → Ends env m db (db', none)
    fails :
        {db' : Db Schema} (e : Err)
        → (db' ≡ db) ⊎ (has_dirty db'.rows ≡ true)
        → Ends env m db (db', some e)

  module _ (env : Env Schema) (k : ℕ) (m : Migration) where
    abbrev marked : Db Schema → Db Schema
    marked db = record db { rows = db.rows ++ row_of true m ∷ [] }

    marked_dirty : (db : Db Schema) → has_dirty (marked db).rows ≡ true
    marked_dirty db = has_dirty-append db.rows _ refl

    cleared-Ends :
        (db : Db Schema) (schema : Schema) (o : Option String)
        → any (λ (r : Row). r.version == m.version) db.rows ≡ false
        → env.exec k m.up_sql db.schema ≡ (schema, none)
        → Ends env m db (
            unless_fault o
              (λ d. (
                record d { rows = update_rows (fits m.version true) (set_dirty false) d.rows },
                if eqb (count_rows (fits m.version true) d.rows) 1
                    then none
                    else some changed_concurrently,
              ))
              (record (marked db) { schema = schema }))
    cleared-Ends db schema (some text) fresh ran = fails _ (inr (marked_dirty db))
    cleared-Ends db schema none fresh ran =
        let others = any-fits m.version true db.rows fresh in
        let this = fits-row_of true m in
        rw (count_rows-last (fits m.version true) db.rows (row_of true m) others this)
          (applies k (update_rows-last _ _ db.rows _ others this) ran)

    ran-Ends :
        (db : Db Schema) (p : Schema × Option String) (rest : Action Schema)
        → ((schema : Schema)
            → p ≡ (schema, none)
            → Ends env m db (rest (record (marked db) { schema = schema })))
        → Ends env m db (next (executed (marked db) p) rest)
    ran-Ends db (schema, none) rest h = h schema refl
    ran-Ends db (schema, some text) rest h = fails _ (inr (marked_dirty db))

    marked-Ends :
        (db : Db Schema) (o : Option String) (test : Db Schema → Bool) (rest : Action Schema)
        → (test db ≡ false → Ends env m db (rest (marked db)))
        → Ends env m db (
            next
              (unless_fault o
                (λ d. if test d then (d, some (database "duplicate key")) else (marked d, none))
                db)
              rest)
    marked-Ends db (some text) test rest h = fails _ (inl refl)
    marked-Ends db none test rest h = elim (Bool-cases (test db)) [
      | inl twice ↦ rw twice (fails _ (inl refl))
      | inr fresh ↦ rw fresh (h fresh)
    ]

    apply_up_outside-Ends : (db : Db Schema) → Ends env m db (apply_up_outside env k m db)
    unfolding apply_up_outside insert_history statement run_sql turn_row
    apply_up_outside-Ends db =
        marked-Ends db (env.fault insert_row k)
          (λ d. any (λ (r : Row). r.version == m.version) d.rows) _
          λ fresh.
            ran-Ends db (env.exec k m.up_sql db.schema) _
              λ schema ran. cleared-Ends db schema (env.fault clear_dirty k) fresh ran

    inside-Ends :
        (db : Db Schema) (p : Schema × Option String) (o o' : Option String)
        (test : Db Schema → Bool)
        → env.exec k m.up_sql db.schema ≡ p
        → Ends env m db (
            settle db (
              next
                (next (executed db p) (
                  unless_fault o (λ d.
                    if test d
                    then (d, some (database "duplicate key"))
                    else (record d { rows = d.rows ++ row_of false m ∷ [] }, none))))
                (unless_fault o' (λ d. (d, none)))))
    inside-Ends db (schema, some text) o o' test ran = fails _ (inl refl)
    inside-Ends db (schema, none) (some text) o' test ran = fails _ (inl refl)
    inside-Ends db (schema, none) none o' test ran =
        elim (Bool-cases (test (record db { schema = schema }))) [
          | inl twice ↦ rw twice (fails _ (inl refl))
          | inr fresh ↦ rw fresh (committed-Ends o')
        ]
      where
        committed-Ends :
            (o' : Option String)
            → Ends env m db (
                settle db (
                  unless_fault o'
                    (λ d. (d, none))
                    (record db { rows = db.rows ++ row_of false m ∷ []; schema = schema })))
        committed-Ends none = applies k refl ran
        committed-Ends (some text) = fails _ (inl refl)

    apply_up_inside-Ends :
        (db : Db Schema)
        → Ends env m db
            (in_tx env k (run_sql env k m.up_sql then_run insert_history env k false m) db)
    unfolding in_tx insert_history statement run_sql
    apply_up_inside-Ends db = begun (env.fault begin_tx k)
      where
        body : Action Schema
        body d = settle d (
            next
              (next (executed d (env.exec k m.up_sql d.schema)) (
                unless_fault (env.fault insert_row k) (λ d.
                  if any (λ (r : Row). r.version == m.version) d.rows
                  then (d, some (database "duplicate key"))
                  else (record d { rows = d.rows ++ row_of false m ∷ [] }, none))))
              (unless_fault (env.fault commit_tx k) (λ d. (d, none))))

        begun : (o : Option String) → Ends env m db (unless_fault o body db)
        begun (some text) = fails _ (inl refl)
        begun none =
            inside-Ends db _ (env.fault insert_row k) (env.fault commit_tx k)
              (λ d. any (λ (r : Row). r.version == m.version) d.rows) refl

    pub apply_up-Ends : (db : Db Schema) → Ends env m db (apply_up env k m db)
    unfolding apply_up
    apply_up-Ends db = elim (Bool-cases (runs_outside_tx env.dialect m.up_sql)) [
      | inl outside ↦ rw outside (apply_up_outside-Ends db)
      | inr inside ↦ rw inside (apply_up_inside-Ends db)
    ]
