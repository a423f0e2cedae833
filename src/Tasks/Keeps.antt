-- ===== src/Tasks/Keeps.antt =====
-- What a call keeps true of the database, on success and on error, and what holds of its value.
use gin_bear.Base.{
  ℕ, zero, suc, ◌≡◌, refl, ◌+◌, Bool, true, false, Option, none, some, arith, Option-cases, inl,
  inr, if◌then◌else◌, Bool-cases,
}
use gin_bear.Tasks.Types.{
  Db, Err, Site, Pause, Env, is_lock_contention, backoff, tx_begin, tx_commit,
}
use gin_bear.Tasks.Sql.{
  Result, ok, err, M, continue, ◌>>=◌, return, fail, fail_if, raise, map_result, map_error,
  handle_result, handle, statement, pause, rollback, transact_once, wait_backoff, retry_or,
  transact_from, transact,
}

-- From a database with `P` the call ends in one with `P`, and a value that it returns has `R`.
pub record Keeps {A : Type 0} (P : Db → Type 0) (m : M A) (R : A → Type 0) : Type 0 where
  pub state : (db : Db) → P db → P (m db).0
  pub value : (db : Db) (a : A) → P db → (m db).1 ≡ ok a → R a

abbrev pub Any : {A : Type 0} → A → Type 0
Any a = Unit {0}

-- What one finished part leaves.
pub record Leaves {A : Type 0} (P : Db → Type 0) (r : Db × Result A) (R : A → Type 0) : Type 0 where
  pub state : P r.0
  pub value : (a : A) → r.1 ≡ ok a → R a

module _ {P : Db → Type 0} where
  pub keeps_of_leaves :
      {A : Type 0} {m : M A} {R : A → Type 0} → ((db : Db) → P db → Leaves P (m db) R) → Keeps P m R
  keeps_of_leaves h = record {
    state = λ db p. (h db p).state;
    value = λ db a p e. (h db p).value a e;
  }

  pub leaves_of_keeps :
      {A : Type 0} {m : M A} {R : A → Type 0} → Keeps P m R → (db : Db) → P db → Leaves P (m db) R
  leaves_of_keeps k db p = record { state = k.state db p; value = λ a e. k.value db a p e }

  pub stopped :
      {A : Type 0} {R : A → Type 0} {db : Db} {e : Err} → P db → Leaves {A = A} P (db, err e) R
  stopped p = record { state = p; value = λ a h. absurd (cc) }

  pub done : {A : Type 0} {R : A → Type 0} {db : Db} {a : A} → P db → R a → Leaves P (db, ok a) R
  done {A} {R} {a} p r = record { state = p; value = returned }
    where
      returned : (b : A) → ok a ≡ ok b → R b
      returned b e = let same : a ≡ b = ground arith in rw (← same) r

  leaves-continue :
      {A B : Type 0} {R : A → Type 0} {Q : B → Type 0} (r : Db × Result A) (f : A → M B)
      → Leaves P r R
      → ((a : A) → R a → Keeps P (f a) Q)
      → Leaves P (continue r f) Q
  leaves-continue (db, ok a) f l k = leaves_of_keeps (k a (l.value a refl)) db l.state
  leaves-continue (db, err e) f l k = stopped l.state

  pub keeps-bind :
      {A B : Type 0} {m : M A} {f : A → M B} {R : A → Type 0} {Q : B → Type 0}
      → Keeps P m R
      → ((a : A) → R a → Keeps P (f a) Q)
      → Keeps P (m >>= f) Q
  unfolding ◌>>=◌
  keeps-bind {m} {f} k l =
      keeps_of_leaves λ db p. leaves-continue (m db) f (leaves_of_keeps k db p) l

  leaves-handle_result :
      {A B : Type 0} {R : A → Type 0} {Q : B → Type 0} (r : Db × Result A) (h : Err → M B)
      (f : A → M B)
      → Leaves P r R
      → ((e : Err) → Keeps P (h e) Q)
      → ((a : A) → R a → Keeps P (f a) Q)
      → Leaves P (handle_result r h f) Q
  leaves-handle_result (db, ok a) h f l j k = leaves_of_keeps (k a (l.value a refl)) db l.state
  leaves-handle_result (db, err e) h f l j k = leaves_of_keeps (j e) db l.state

  pub keeps-handle :
      {A B : Type 0} {m : M A} {h : Err → M B} {f : A → M B} {R : A → Type 0} {Q : B → Type 0}
      → Keeps P m R
      → ((e : Err) → Keeps P (h e) Q)
      → ((a : A) → R a → Keeps P (f a) Q)
      → Keeps P (handle m h f) Q
  unfolding handle
  keeps-handle {m} {h} {f} k j l =
      keeps_of_leaves λ db p. leaves-handle_result (m db) h f (leaves_of_keeps k db p) j l

  leaves-map_result :
      {A : Type 0} {R : A → Type 0} (f : Err → Err) (r : Db × Result A)
      → Leaves P r R
      → Leaves P (map_result f r) R
  leaves-map_result f (db, ok a) l = l
  leaves-map_result f (db, err e) l = stopped l.state

  pub keeps-map_error :
      {A : Type 0} {m : M A} {R : A → Type 0} (f : Err → Err)
      → Keeps P m R
      → Keeps P (map_error f m) R
  unfolding map_error
  keeps-map_error {m} f k =
      keeps_of_leaves λ db p. leaves-map_result f (m db) (leaves_of_keeps k db p)

  -- Less of the value.
  pub keeps-weaken :
      {A : Type 0} {m : M A} {R Q : A → Type 0} → ((a : A) → R a → Q a) → Keeps P m R → Keeps P m Q
  keeps-weaken less k = record { state = k.state; value = λ db a p e. less a (k.value db a p e) }

  pub keeps-return : {A : Type 0} {R : A → Type 0} (a : A) → R a → Keeps P (return a) R
  keeps-return a r = keeps_of_leaves λ db p. done p r

  pub keeps-fail : {A : Type 0} {R : A → Type 0} (e : Err) → Keeps P (fail {A = A} e) R
  keeps-fail e = keeps_of_leaves λ db p. stopped p

  pub keeps-fail_if : (b : Bool) (e : Err) → Keeps P (fail_if b e) λ _. b ≡ false
  unfolding fail_if
  keeps-fail_if true e = keeps-fail e
  keeps-fail_if false e = keeps-return tt refl

  pub keeps-if :
      {A : Type 0} {R : A → Type 0} {x y : M A} (b : Bool)
      → (b ≡ true → Keeps P x R)
      → (b ≡ false → Keeps P y R)
      → Keeps P (if b then x else y) R
  keeps-if true k l = k refl
  keeps-if false k l = l refl

  pub keeps-raise : (o : Option Err) → Keeps P (raise o) Any
  unfolding raise
  keeps-raise none = keeps-return tt tt
  keeps-raise (some e) = keeps-fail e

  pub keeps-statement :
      {A : Type 0} {R : A → Type 0} (env : Env) (site : Site) (k : ℕ) (run : Db → Db × Result A)
      → ((db : Db) → P db → Leaves P (run db) R)
      → Keeps P (statement env site k run) R
  unfolding statement
  keeps-statement env site k run h = keeps_of_leaves λ db p.
      elim (Option-cases (env.fault site k)) [
        | inl e ↦ rw (e, statement) (h db p)
        | inr (x, e) ↦ rw (e, statement) (stopped p)
      ]

  keeps-ready : (env : Env) (site : Site) (k : ℕ) → Keeps P (statement env site k (return tt)) Any
  keeps-ready env site k = keeps-statement env site k (return tt) λ db p. done p tt

  pub keeps-pause :
      (env : Env) (q : Pause) → ((d : Db) → P d → P (env.between q d)) → Keeps P (pause env q) Any
  unfolding pause
  keeps-pause env q h = record { state = h; value = λ db a p e. tt }

  leaves-rollback :
      {A : Type 0} {R : A → Type 0} (db : Db) (r : Db × Result A)
      → P db
      → Leaves P r R
      → Leaves P (rollback db r) R
  leaves-rollback db (db', ok a) p l = l
  leaves-rollback db (db', err e) p l = stopped p

  pub keeps-transact_once :
      {A : Type 0} {R : A → Type 0} (env : Env) (k : ℕ) (body : M A)
      → Keeps P body R
      → Keeps P (transact_once env k body) R
  unfolding transact_once
  keeps-transact_once env k body h = keeps_of_leaves λ db p. leaves-rollback db _ p (
      leaves_of_keeps
        (keeps-bind (keeps-ready env tx_begin k) λ _ _.
          keeps-bind h λ a r. keeps-bind (keeps-ready env tx_commit k) λ _ _. keeps-return a r)
        db p)

module _ {P : Db → Type 0} (env : Env)
    (others : (q : Pause) (d : Db) → P d → P (env.between q d)) where
  keeps-wait_backoff : (k : ℕ) → Keeps P (wait_backoff env k) Any
  unfolding wait_backoff
  keeps-wait_backoff k =
      keeps-bind {f = λ _. raise (env.canceled_at k)}
        (keeps-pause env (backoff k) (others (backoff k))) λ _ _. keeps-raise (env.canceled_at k)

  leaves-retry_or :
      {A : Type 0} {R : A → Type 0} (k : ℕ) (again : M A) (r : Db × Result A)
      → Leaves P r R
      → Keeps P again R
      → Leaves P (retry_or env k again r) R
  leaves-retry_or k again (db, ok a) l h = l
  leaves-retry_or k again (db, err e) l h = elim (Bool-cases (is_lock_contention e)) [
    | inl busy ↦ rw busy (leaves_of_keeps h db l.state)
    | inr final ↦ rw final (stopped l.state)
  ]

  keeps-transact_from :
      {A : Type 0} {R : A → Type 0} (left k : ℕ) (body : ℕ → M A)
      → ((k : ℕ) → Keeps P (body k) R)
      → Keeps P (transact_from env left k body) R
  unfolding transact_from
  keeps-transact_from zero k body h = keeps-transact_once env k (body k) (h k)
  keeps-transact_from (suc left) k body h = keeps_of_leaves λ db p.
      leaves-retry_or k _ (transact_once env k (body k) db)
        (leaves_of_keeps (keeps-transact_once env k (body k) (h k)) db p)
        (keeps-bind (keeps-wait_backoff k) λ _ _. keeps-transact_from left (k + 1) body h)

  -- A transaction keeps what each attempt at its body and the others keep.
  pub keeps-transact :
      {A : Type 0} {R : A → Type 0} (body : ℕ → M A)
      → ((k : ℕ) → Keeps P (body k) R)
      → Keeps P (transact env body) R
  unfolding transact
  keeps-transact body h = keeps-transact_from 9 1 body h
