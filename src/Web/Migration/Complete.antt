-- ===== src/Web/Migration/Complete.antt =====
-- A whole run of `Up` of pkg/bear/migration.go.
use Prim.Native.String.{String}
use text.Mathlib.Text.{◌==◌}
use text.Mathlib.TextEquality.{eq_iff}
use mathlib.Core.List.{append_assoc}
use gin_bear.Base.{
  ℕ, ◌+◌, ◌≡◌, refl, sym, ap, subst, ◌∙◌, inl, inr, Bool, true, false, Option, none, some, List, [],
  ◌∷◌, ◌++◌, map, All, if◌then◌else◌,
}
use gin_bear.Web.Migration.{
  Migration, Row, Err, owner_mismatch, dirty_migration, select_row, free_lock, check_dirty, Layout,
  Db, Env, Action, next, unless_fault, statement, find_row, earliest_dirty, row_of, reject_dirty,
}
use gin_bear.Web.Migration.Lock.{check_runner, release_lock, released_after, first_error}
use gin_bear.Web.Migration.Up.{applied_row, look_up, apply_up, unless_applied, up_all, up}
use gin_bear.Web.Migration.Honest.{
  Ran, ran_one, Recorded, Honest, Recorded-refl, Ends, applies, fails, apply_up-Ends,
}
use gin_bear.Web.Migration.Exclusion.{
  IsCheck, unless_fault-IsCheck, check_runner-IsCheck, check-then, locked-then,
}
use gin_bear.Web.Migration.History.{
  has_version, InHistory, find_row-append, find_row-last, find_row-fits, row_of-eta,
}

module _ {Schema : Type 0} where
  -- How a run over some migrations ends: every one of them is in the history, or the run stops with
  -- an error and the history is honest.
  pub data UpEnds (env : Env Schema) (ms : List Migration) (db : Db Schema)
      : Db Schema × Option Err → Type 0 where
    completes :
        {db' : Db Schema}
        → Recorded env db db'
        → All (InHistory db'.rows) ms
        → UpEnds env ms db (db', none)
    stops : {db' : Db Schema} (e : Err) → Honest env db db' → UpEnds env ms db (db', some e)

  Recorded-InHistory :
      {env : Env Schema} {db db' : Db Schema} (m : Migration)
      → Recorded env db db'
      → InHistory db.rows m
      → InHistory db'.rows m
  Recorded-InHistory {db = db} m recorded h = rw recorded.rows (find_row-append _ db.rows _ _ h)

  Recorded-step :
      {env : Env Schema} {db mid db' : Db Schema} (m : Migration) (k : ℕ)
      → mid.rows ≡ db.rows ++ row_of false m ∷ []
      → env.exec k m.up_sql db.schema ≡ (mid.schema, none)
      → Recorded env mid db'
      → Recorded env db db'
  Recorded-step {db = db} m k added ran recorded = record {
    migrations = m ∷ recorded.migrations;
    rows =
        recorded.rows
        ∙ ap (λ rows. rows ++ map (row_of false) recorded.migrations) added
        ∙ append_assoc db.rows _ _;
    schema = ran_one k ran recorded.schema;
  }

  applied-UpEnds :
      {env : Env Schema} {m : Migration} {ms : List Migration} {db : Db Schema}
      {p : Db Schema × Option Err}
      → InHistory db.rows m
      → UpEnds env ms db p
      → UpEnds env (m ∷ ms) db p
  applied-UpEnds {m = m} there (completes recorded all) =
      completes recorded (Recorded-InHistory m recorded there, all)
  applied-UpEnds there (stops e honest) = stops e honest

  stepped-UpEnds :
      {env : Env Schema} {m : Migration} {ms : List Migration} {db mid : Db Schema}
      {p : Db Schema × Option Err} (k : ℕ)
      → mid.rows ≡ db.rows ++ row_of false m ∷ []
      → env.exec k m.up_sql db.schema ≡ (mid.schema, none)
      → InHistory mid.rows m
      → UpEnds env ms mid p
      → UpEnds env (m ∷ ms) db p
  stepped-UpEnds {m = m} k added ran there (completes recorded all) =
      completes (Recorded-step m k added ran recorded) (Recorded-InHistory m recorded there, all)
  stepped-UpEnds {m = m} k added ran there (stops e (inl recorded)) =
      stops e (inl (Recorded-step m k added ran recorded))
  stepped-UpEnds k added ran there (stops e (inr dirty)) = stops e (inr dirty)

  unapplied-UpEnds :
      (env : Env Schema) (m : Migration) (ms : List Migration) (db : Db Schema)
      (p : Db Schema × Option Err) (rest : Action Schema)
      → find_row (has_version m.version) db.rows ≡ none
      → Ends env m db p
      → ((mid : Db Schema) → UpEnds env ms mid (rest mid))
      → UpEnds env (m ∷ ms) db (next p rest)
  unapplied-UpEnds env m ms db _ rest absent (applies {db'} k added ran) ih =
      stepped-UpEnds k added ran
        (rw added (find_row-last _ db.rows _ absent ((eq_iff m.version m.version).1 refl))) (ih db')
  unapplied-UpEnds env m ms db _ rest absent (fails e (inl same)) ih =
      stops e (inl (rw same (Recorded-refl env db)))
  unapplied-UpEnds env m ms db _ rest absent (fails e (inr dirty)) ih = stops e (inr dirty)

  found-UpEnds :
      (env : Env Schema) (m : Migration) (ms : List Migration) (db : Db Schema) (o : Option Row)
      (apply rest : Action Schema)
      → find_row (has_version m.version) db.rows ≡ o
      → Ends env m db (apply db)
      → ((mid : Db Schema) → UpEnds env ms mid (rest mid))
      → UpEnds env (m ∷ ms) db (unless_applied (applied_row m o) apply rest db)
  found-UpEnds env m ms db none apply rest found ends ih =
      unapplied-UpEnds env m ms db _ rest found ends ih
  found-UpEnds env m ms db (some r) apply rest found ends ih =
      go r.dirty (r.name == m.name) refl refl
    where
      go :
          (dirty same : Bool)
          → r.dirty ≡ dirty
          → (r.name == m.name) ≡ same
          → UpEnds env (m ∷ ms) db (unless_applied (applied_row m (some r)) apply rest db)
      go true same d e = rw d (stops _ (inl (Recorded-refl env db)))
      go false false d e = rw d (rw e (stops _ (inl (Recorded-refl env db))))
      go false true d e = rw d (
          rw e (
            applied-UpEnds (found ∙ ap some (row_of-eta m r (find_row-fits _ db.rows _ found) e d))
              (ih db)))

  up_all-UpEnds :
      (env : Env Schema) (k : ℕ) (ms : List Migration) (db : Db Schema)
      → UpEnds env ms db (up_all env k ms db)
  unfolding up_all
  up_all-UpEnds env k [] db = completes (Recorded-refl env db) tt
  up_all-UpEnds env k (m ∷ ms) db = asked (env.fault select_row k) _ (up_all-UpEnds env (k + 1) ms)
    where
      asked :
          (o : Option String) (rest : Action Schema)
          → ((mid : Db Schema) → UpEnds env ms mid (rest mid))
          → UpEnds env (m ∷ ms) db (unless_applied (look_up o m db) (apply_up env k m) rest db)
      asked (some text) rest ih = stops _ (inl (Recorded-refl env db))
      asked none rest ih =
          found-UpEnds env m ms db _ (apply_up env k m) rest refl (apply_up-Ends env k m db) ih

  -- The release of the lock touches neither the history nor the schema.
  abbrev Same : Db Schema → Db Schema → Type 0
  Same db db' = (db'.rows ≡ db.rows) × (db'.schema ≡ db.schema)

  release_lock-Same :
      (env : Env Schema) (owner : String) (db : Db Schema) → Same db (release_lock env owner db).0
  unfolding release_lock statement
  release_lock-Same env owner db = freed (env.fault free_lock 0)
    where
      owned :
          (b : Bool)
          → Same db
              (if◌then◌else◌ {A = Db Schema × Option Err} b
                (record db { lock = none }, none)
                (db, some owner_mismatch)).0
      owned true = (refl, refl)
      owned false = (refl, refl)

      let_go : Option String → Action Schema
      let_go lock d = elim lock [
        | none ↦ (d, some owner_mismatch)
        | some current ↦
            if current == owner then (record d { lock = none }, none) else (d, some owner_mismatch)
      ]

      held : (lock : Option String) → Same db (let_go lock db).0
      held none = (refl, refl)
      held (some current) = owned (current == owner)

      freed : (o : Option String) → Same db (unless_fault o (λ d. let_go d.lock d) db).0
      freed none = held db.lock
      freed (some text) = (refl, refl)

  Recorded-Same :
      {env : Env Schema} {db db' end : Db Schema}
      → Same db' end
      → Recorded env db db'
      → Recorded env db end
  Recorded-Same {env} {db} {db'} same recorded = record {
    migrations = recorded.migrations;
    rows = same.0 ∙ recorded.rows;
    schema = subst (λ s. Ran env recorded.migrations db.schema s) (sym same.1) recorded.schema;
  }

  released-UpEnds :
      (env : Env Schema) (ms : List Migration) (db : Db Schema) (p : Db Schema × Option Err)
      → UpEnds env ms db p
      → UpEnds env ms db (released_after env p)
  released-UpEnds env ms db _ (completes {db'} recorded all) =
      freed (release_lock env env.owner db') (release_lock-Same env env.owner db')
    where
      freed : (q : Db Schema × Option Err) → Same db' q.0 → UpEnds env ms db (first_error none q)
      freed (end, none) same = completes (Recorded-Same same recorded) (rw same.0 all)
      freed (end, some e) same = stops e (inl (Recorded-Same same recorded))
  released-UpEnds env ms db _ (stops {db'} e honest) =
      stops e (freed (release_lock env env.owner db') (release_lock-Same env env.owner db') honest)
    where
      freed : (q : Db Schema × Option Err) → Same db' q.0 → Honest env db db' → Honest env db q.0
      freed q same (inl recorded) = inl (Recorded-Same same recorded)
      freed q same (inr dirty) = inr (rw same.0 dirty)

  taken-UpEnds :
      {env : Env Schema} {ms : List Migration} {db : Db Schema} {lock : Option String} {l : Layout}
      {p : Db Schema × Option Err}
      → UpEnds env ms (record db { lock = lock; layout = l }) p
      → UpEnds env ms db p
  taken-UpEnds (completes recorded all) =
      completes
        (record {
          migrations = recorded.migrations;
          rows = recorded.rows;
          schema = recorded.schema;
        })
        all
  taken-UpEnds (stops e (inl recorded)) = stops e (
      inl
        record { migrations = recorded.migrations; rows = recorded.rows; schema = recorded.schema })
  taken-UpEnds (stops e (inr dirty)) = stops e (inr dirty)

  -- A check that `up` makes on the way.
  reject_dirty-IsCheck : (env : Env Schema) → IsCheck (reject_dirty env)
  unfolding reject_dirty statement
  reject_dirty-IsCheck env = unless_fault-IsCheck (env.fault check_dirty 0) _ looked
    where
      answer : Option Row → Action Schema
      answer o db = elim o [ none ↦ (db, none) | some r ↦ (db, some (dirty_migration r.version)) ]

      answered : (o : Option Row) → IsCheck (answer o)
      answered none db = (none, refl)
      answered (some r) db = (some (dirty_migration r.version), refl)

      looked : IsCheck (λ db. answer (earliest_dirty env.less db.rows) db)
      looked db = answered (earliest_dirty env.less db.rows) db

  -- An `Up` without an error leaves every migration that it was given in the history, and whatever its
  -- outcome the history is honest.
  pub up-UpEnds :
      (env : Env Schema) (ms : List Migration) (db : Db Schema) → UpEnds env ms db (up env ms db)
  unfolding up
  up-UpEnds env ms db =
      let refused = λ (e : Err). stops e (inl (Recorded-refl env db)) in
      check-then (UpEnds env ms db) (check_runner env) _ db (check_runner-IsCheck env) refused (
        locked-then (UpEnds env ms db) env _ db
          (λ l e. taken-UpEnds {lock = db.lock} {l = l} (stops e (inl (Recorded-refl env _))))
          λ l free. released-UpEnds env ms db _ (
            taken-UpEnds (
              check-then (UpEnds env ms _) (reject_dirty env) _ _ (reject_dirty-IsCheck env)
                (λ e. stops e (inl (Recorded-refl env _))) (up_all-UpEnds env 0 ms _))))
