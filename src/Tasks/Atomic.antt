-- ===== src/Tasks/Atomic.antt =====
-- How a transaction ends, over all its attempts (`transact` of tasks.go).
use gin_bear.Base.{
  ℕ, zero, suc, ◌+◌, ◌≡◌, refl, sym, ◌∙◌, ap, Bool-cases, Option-cases, inl, inr, ◌⊎◌,
}
use gin_bear.Tasks.Types.{Db, Err, Site, Env, is_lock_contention, backoff, tx_begin, tx_commit}
use gin_bear.Tasks.Sql.{
  Result, ok, err, M, continue, ◌>>=◌, ◌>>◌, return, raise, statement, pause, rollback,
  transact_once, wait_backoff, transact_from, transact,
}

-- What the waits between the attempts of one transaction let in.
pub data Meanwhile (env : Env) (db : Db) : Db → Type 0 where
  here : Meanwhile env db db
  wait : {db' : Db} (k : ℕ) → Meanwhile env db db' → Meanwhile env db (env.between (backoff k) db')

-- How a transaction ends: one attempt of its body is committed whole, or nothing of it is.
pub data Ends {A : Type 0} (env : Env) (body : ℕ → M A) (db : Db) : Db × Result A → Type 0 where
  commits :
      {db' : Db} {r : Db} {a : A} (k : ℕ)
      → Meanwhile env db db'
      → body k db' ≡ (r, ok a)
      → Ends env body db (r, ok a)
  drops : {db' : Db} {e : Err} → Meanwhile env db db' → Ends env body db (db', err e)

-- The parts of a successful sequence.
pub continue-eq-ok :
    {A B : Type 0} (r : Db × Result A) (f : A → M B) {db' : Db} {b : B}
    → continue r f ≡ (db', ok b)
    → (d : Db) × (a : A) × (r ≡ (d, ok a)) × (f a d ≡ (db', ok b))
continue-eq-ok (d, ok a) f e = (d, a, refl, e)
continue-eq-ok (d, err x) f e = absurd (cc (ap (λ (p : Db × Result _). p.1) e))

pub >>=-eq-ok :
    {A B : Type 0} (m : M A) (f : A → M B) (db : Db) {db' : Db} {b : B}
    → (m >>= f) db ≡ (db', ok b)
    → (d : Db) × (a : A) × (m db ≡ (d, ok a)) × (f a d ≡ (db', ok b))
unfolding ◌>>=◌
>>=-eq-ok m f db e = continue-eq-ok (m db) f e

-- A statement that only says whether the database goes on.
ready-eq-ok :
    (env : Env) (site : Site) (k : ℕ) (db : Db) {db' : Db} {u : Unit {0}}
    → statement env site k (return tt) db ≡ (db', ok u)
    → db' ≡ db
unfolding statement
ready-eq-ok env site k db {db'} e = elim (Option-cases (env.fault site k)) [
  | inl h ↦
      let same : (db, ok tt) ≡ (db', ok _) = rw (h, statement) at e in ap (λ p. p.0) (sym same)
  | inr (x, h) ↦ absurd (cc (ap (λ (p : Db × Result (Unit {0})). p.1) (rw (h, statement) at e)))
]

rollback-cases :
    {A : Type 0} (db : Db) (x : Db × Result A)
    → ((e : Err) × (rollback db x ≡ (db, err e)))
      ⊎ ((r : Db) × (a : A) × (rollback db x ≡ (r, ok a)) × (x ≡ (r, ok a)))
rollback-cases db (d, ok a) = inr (d, a, refl, refl)
rollback-cases db (d, err e) = inl (e, refl)

-- The body between the begin and the commit.
abbrev framed : {A : Type 0} → Env → ℕ → M A → M A
framed env k m = statement env tx_begin k (return tt) >>= λ _.
    m >>= λ b. statement env tx_commit k (return tt) >>= λ _. return b

framed-eq-ok :
    {A : Type 0} (env : Env) (k : ℕ) (m : M A) (db : Db) {r : Db} {a : A}
    → framed env k m db ≡ (r, ok a)
    → m db ≡ (r, ok a)
framed-eq-ok env k m db e =
    let (d, _, begun, rest) = >>=-eq-ok (statement env tx_begin k (return tt)) _ db e in
    let (d', b, ran, last) = >>=-eq-ok m _ d rest in
    let (d'', _, ended, returned) =
      >>=-eq-ok (statement env tx_commit k (return tt)) (λ _. return b) d' last in
    ap m (sym (ready-eq-ok env tx_begin k db begun))
    ∙ ran
    ∙ ap (λ x. (x, ok b)) (sym (ready-eq-ok env tx_commit k d' ended))
    ∙ returned

once-cases :
    {A : Type 0} (env : Env) (k : ℕ) (m : M A) (db : Db)
    → ((e : Err) × (transact_once env k m db ≡ (db, err e)))
      ⊎ ((r : Db) × (a : A) × (transact_once env k m db ≡ (r, ok a)) × (m db ≡ (r, ok a)))
unfolding transact_once
once-cases env k m db = elim (rollback-cases db (framed env k m db)) [
  | inl (e, h) ↦ inl (e, h)
  | inr (r, a, h, ran) ↦ inr (r, a, h, framed-eq-ok env k m db ran)
]

waited :
    (env : Env) (k : ℕ) (db : Db)
    → (wait_backoff env k db ≡ (env.between (backoff k) db, ok tt))
      ⊎ ((e : Err) × (wait_backoff env k db ≡ (env.between (backoff k) db, err e)))
unfolding wait_backoff ◌>>=◌ pause raise
waited env k db = elim (Option-cases (env.canceled_at k)) [
  | inl e ↦ inl (rw (e, raise))
  | inr (x, e) ↦ inr (x, rw (e, raise))
]

retried :
    {A : Type 0} (env : Env) (start : Db) (body : ℕ → M A) (k : ℕ) (again : M A) (db : Db)
    → Meanwhile env start db
    → ((d : Db) → Meanwhile env start d → Ends env body start (again d))
    → Ends env body start ((wait_backoff env k >> again) db)
unfolding ◌>>=◌
retried env start body k again db w next = elim (waited env k db) [
  | inl t ↦ rw t (next _ (wait k w))
  | inr (x, t) ↦ rw t (drops (wait k w))
]

transact_from-Ends :
    {A : Type 0} (env : Env) (start : Db) (body : ℕ → M A) (left k : ℕ) (db : Db)
    → Meanwhile env start db
    → Ends env body start (transact_from env left k body db)
unfolding transact_from
transact_from-Ends env start body zero k db w = elim (once-cases env k (body k) db) [
  | inl (e, h) ↦ rw h (drops w)
  | inr (r, a, h, ran) ↦ rw h (commits k w ran)
]
transact_from-Ends env start body (suc left) k db w = elim (once-cases env k (body k) db) [
  | inr (r, a, h, ran) ↦ rw h (commits k w ran)
  | inl (e, h) ↦ rw h (elim (Bool-cases (is_lock_contention e)) [
    | inr final ↦ rw final (drops w)
    | inl busy ↦ rw busy (
        retried env start body k (transact_from env left (k + 1) body) db w
          (transact_from-Ends env start body left (k + 1)))
  ])
]

-- A transaction that succeeds has committed one attempt of its body whole, on what the other
-- instances had committed until then; one that fails has written nothing, whatever statement of it
-- the database refused, so that only the other instances' commits remain.
pub transact-Ends :
    {A : Type 0} (env : Env) (body : ℕ → M A) (db : Db) → Ends env body db (transact env body db)
unfolding transact
transact-Ends env body db = transact_from-Ends env db body 9 1 db here
