-- ===== src/Web/Migration/Exclusion.antt =====
-- The lock of pkg/bear/migration.go around an operation.
use Prim.Native.String.{String}
use gin_bear.Base.{◌≡◌, ◌≢◌, refl, not, Bool, true, false, Option, none, some, List}
use gin_bear.Base.Int.{ℤ, pos, leb_ℤ}
use gin_bear.Web.Migration.{
  Migration, Err, database, lock_held, no_database, version_required, unsupported_dialect,
  create_history, create_lock, take_lock, Layout, Db, Env, Action, next, ◌then_run◌, done,
  refuse_if, unless_fault, statement,
}
use gin_bear.Web.Migration.Lock.{
  acquire_lock, released_after, with_lock, ensure_table, ensure_lock_table, prepare, check_runner,
  force_state, forced,
}
use gin_bear.Base.Text.{is_blank}
use gin_bear.Web.Migration.Names.{is_supported}
use gin_bear.Web.Migration.Up.{up}
use gin_bear.Web.Migration.Down.{down}

module _ {Schema : Type 0} where
  -- A check leaves the database as it is.
  abbrev pub IsCheck : Action Schema → Type 0
  IsCheck m = (db : Db Schema) → (e : Option Err) × (m db ≡ (db, e))

  then_run-IsCheck : (m k : Action Schema) → IsCheck m → IsCheck k → IsCheck (m then_run k)
  then_run-IsCheck m k f g db = go (m db) (f db)
    where
      go :
          (p : Db Schema × Option Err)
          → (e : Option Err) × (p ≡ (db, e))
          → (e : Option Err) × (next p k ≡ (db, e))
      go p (none, h) = rw h (g db)
      go p (some e, h) = (some e, rw h refl)

  refuse_if-IsCheck : (b : Bool) (e : Err) → IsCheck (refuse_if b e)
  refuse_if-IsCheck true e db = (some e, refl)
  refuse_if-IsCheck false e db = (none, refl)

  pub unless_fault-IsCheck :
      (o : Option String) (m : Action Schema) → IsCheck m → IsCheck (unless_fault o m)
  unless_fault-IsCheck none m f db = f db
  unless_fault-IsCheck (some text) m f db = (some (database text), refl)

  done-IsCheck : IsCheck done
  done-IsCheck db = (none, refl)

  pub check_runner-IsCheck : (env : Env Schema) → IsCheck (check_runner env)
  unfolding check_runner
  check_runner-IsCheck env = then_run-IsCheck _ _ (refuse_if-IsCheck _ _) (refuse_if-IsCheck _ _)

  -- A step that leaves everything but the forms of the runner's tables.
  abbrev pub IsPreparation : Action Schema → Type 0
  IsPreparation m =
      (db : Db Schema) → (l : Layout) × (e : Option Err) × (m db ≡ (record db { layout = l }, e))

  IsPreparation-of_check : (m : Action Schema) → IsCheck m → IsPreparation m
  IsPreparation-of_check m f db = let (e, h) = f db in (db.layout, e, h)

  then_run-IsPreparation :
      (m k : Action Schema) → IsPreparation m → IsPreparation k → IsPreparation (m then_run k)
  then_run-IsPreparation m k f g db = go (m db) (f db)
    where
      go :
          (p : Db Schema × Option Err)
          → (l : Layout) × (e : Option Err) × (p ≡ (record db { layout = l }, e))
          → (l : Layout) × (e : Option Err) × (next p k ≡ (record db { layout = l }, e))
      go p (l, none, h) = rw h (g (record db { layout = l }))
      go p (l, some e, h) = (l, some e, rw h refl)

  unless_fault-IsPreparation :
      (o : Option String) (m : Action Schema) → IsPreparation m → IsPreparation (unless_fault o m)
  unless_fault-IsPreparation none m f db = f db
  unless_fault-IsPreparation (some text) m f db = (db.layout, some (database text), refl)

  ensure_table-IsPreparation : (env : Env Schema) → IsPreparation (ensure_table env)
  unfolding ensure_table statement
  ensure_table-IsPreparation env =
      unless_fault-IsPreparation (env.fault create_history 0) _ λ db. (_, _, refl)

  ensure_lock_table-IsPreparation : (env : Env Schema) → IsPreparation (ensure_lock_table env)
  unfolding ensure_lock_table statement
  ensure_lock_table-IsPreparation env =
      unless_fault-IsPreparation (env.fault create_lock 0) _ λ db. (_, _, refl)

  prepare-IsPreparation : (env : Env Schema) → IsPreparation (prepare env)
  unfolding prepare
  prepare-IsPreparation env =
      then_run-IsPreparation _ _ (IsPreparation-of_check _ (refuse_if-IsCheck _ _)) (
        then_run-IsPreparation _ _ (ensure_table-IsPreparation env) (
          then_run-IsPreparation _ _ (IsPreparation-of_check _ (refuse_if-IsCheck _ _))
            (ensure_lock_table-IsPreparation env)))

  -- What holds of a refusal and of what follows the check holds of both together.
  pub check-then :
      (P : Db Schema × Option Err → Type 0) (m rest : Action Schema) (db : Db Schema)
      → IsCheck m
      → ((e : Err) → P (db, some e))
      → P (rest db)
      → P ((m then_run rest) db)
  check-then P m rest db f refused h = go (m db) (f db)
    where
      go : (p : Db Schema × Option Err) → (e : Option Err) × (p ≡ (db, e)) → P (next p rest)
      go p (none, same) = rw same h
      go p (some e, same) = rw same (refused e)

  prepare-then :
      (P : Db Schema × Option Err → Type 0) (env : Env Schema) (rest : Action Schema)
      (db : Db Schema)
      → ((l : Layout) (e : Err) → P (record db { layout = l }, some e))
      → ((l : Layout) → P (rest (record db { layout = l })))
      → P ((prepare env then_run rest) db)
  prepare-then P env rest db refused h = go (prepare env db) (prepare-IsPreparation env db)
    where
      go :
          (p : Db Schema × Option Err)
          → (l : Layout) × (e : Option Err) × (p ≡ (record db { layout = l }, e))
          → P (next p rest)
      go p (l, none, same) = rw same (h l)
      go p (l, some e, same) = rw same (refused l e)

  -- The lock is taken only where it is free.
  acquire-then :
      (P : Db Schema × Option Err → Type 0) (env : Env Schema) (rest : Action Schema)
      (db : Db Schema)
      → ((e : Err) → P (db, some e))
      → (db.lock ≡ none → P (rest (record db { lock = some env.owner })))
      → P ((acquire_lock env then_run rest) db)
  unfolding acquire_lock statement
  acquire-then P env rest db refused h = taken (env.fault take_lock 0)
    where
      take : Option String → Db Schema → Db Schema × Option Err
      take o d = elim o [
        | some owner ↦ (d, some lock_held)
        | none ↦ (record d { lock = some env.owner }, none)
      ]

      held : (o : Option String) → db.lock ≡ o → P (next (take o db) rest)
      held (some owner) e = refused _
      held none e = h e

      taken : (o : Option String) → P (next (unless_fault o (λ d. take d.lock d) db) rest)
      taken none = held db.lock refl
      taken (some text) = refused _

  -- The three outcomes of an operation under the lock, at the hands of one predicate.
  pub locked-then :
      (P : Db Schema × Option Err → Type 0) (env : Env Schema) (body : Action Schema)
      (db : Db Schema)
      → ((l : Layout) (e : Err) → P (record db { layout = l }, some e))
      → ((l : Layout)
          → db.lock ≡ none
          → P (released_after env (body (record db { lock = some env.owner; layout = l }))))
      → P ((prepare env then_run with_lock env body) db)
  unfolding with_lock
  locked-then P env body db refused h =
      prepare-then P env _ db refused
        λ l. acquire-then P env _ (record db { layout = l }) (refused l) (h l)

  -- While a runner holds the lock, every other one fails, and all that it may have changed is the form
  -- of the two tables.
  abbrev pub Untouched : Db Schema → Db Schema × Option Err → Type 0
  Untouched db (end, e) = ((l : Layout) × (end ≡ record db { layout = l })) × (e ≢ none)

  left-Untouched :
      (db : Db Schema) (l : Layout) (e : Err) → Untouched db (record db { layout = l }, some e)
  left-Untouched db l e = ((l, refl), λ h. absurd (cc))

  refused-Untouched : (db : Db Schema) (e : Err) → Untouched db (db, some e)
  refused-Untouched db e = left-Untouched db db.layout e

  locked-Untouched :
      (env : Env Schema) (body : Action Schema) (db : Db Schema) (owner : String)
      → db.lock ≡ some owner
      → Untouched db ((prepare env then_run with_lock env body) db)
  locked-Untouched env body db owner held =
      locked-then (Untouched db) env body db (left-Untouched db) λ l free. absurd (cc)

  refuse_if-Untouched :
      (b : Bool) (e : Err) (rest : Action Schema) (db : Db Schema)
      → Untouched db (rest db)
      → Untouched db (next (refuse_if b e db) rest)
  refuse_if-Untouched true e rest db h = refused-Untouched db e
  refuse_if-Untouched false e rest db h = h

  up-Untouched :
      (env : Env Schema) (migrations : List Migration) (db : Db Schema) (owner : String)
      → db.lock ≡ some owner
      → Untouched db (up env migrations db)
  unfolding up
  up-Untouched env migrations db owner held =
      check-then (Untouched db) (check_runner env) _ db (check_runner-IsCheck env)
        (refused-Untouched db) (locked-Untouched env _ db owner held)

  down-Untouched :
      (env : Env Schema) (migrations : List Migration) (steps : ℤ) (db : Db Schema) (owner : String)
      → db.lock ≡ some owner
      → leb_ℤ steps (pos 0) ≡ false
      → Untouched db (down env migrations steps db)
  unfolding down
  down-Untouched env migrations steps db owner held some_steps =
      check-then (Untouched db) (check_runner env) _ db (check_runner-IsCheck env)
        (refused-Untouched db) (rw some_steps (locked-Untouched env _ db owner held))

  force_state-Untouched :
      (env : Env Schema) (version : String) (applied : Bool) (db : Db Schema) (owner : String)
      → db.lock ≡ some owner
      → Untouched db (force_state env version applied db)
  unfolding force_state
  force_state-Untouched env version applied db owner held =
      refuse_if-Untouched (not env.has_database) no_database _ db (
        refuse_if-Untouched (is_blank version) version_required _ db (
          refuse_if-Untouched (not (is_supported env.dialect)) unsupported_dialect _ db
            (locked-Untouched env (forced env version applied) db owner held)))

  -- While another runner holds the lock, `Up`, a `Down` of at least one step and `ForceMigrationState`
  -- return an error and leave the history, the schema and the lock as they are. All that they may have
  -- changed is that the runner's two tables were created or got their new columns.
  pub held-Untouched :
      (env : Env Schema) (migrations : List Migration) (steps : ℤ) (version : String)
      (applied : Bool) (db : Db Schema) (owner : String)
      → db.lock ≡ some owner
      → leb_ℤ steps (pos 0) ≡ false
      → Untouched db (up env migrations db)
        × (Untouched db (down env migrations steps db)
            × Untouched db (force_state env version applied db))
  held-Untouched env migrations steps version applied db owner held some_steps = (
    up-Untouched env migrations db owner held,
    (
      down-Untouched env migrations steps db owner held some_steps,
      force_state-Untouched env version applied db owner held,
    ),
  )
