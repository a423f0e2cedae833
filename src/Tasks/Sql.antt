-- ===== src/Tasks/Sql.antt =====
-- Statements, transactions and rows: the helpers at the end of tasks.go.
use Prim.Native.String.{String}
use text.Mathlib.Text.{◌==◌}
use gin_bear.Base.{
  ℕ, zero, suc, ◌+◌, ◌&&◌, ◌||◌, Bool, true, false, Option, none, some, List, [], ◌∷◌, ◌++◌,
  if◌then◌else◌, any, eqb,
}
use gin_bear.Base.Int.{ℤ}
use gin_bear.Base.Text.{trim_space}
use gin_bear.Tasks.Types.{
  Task, Approval, Audit, Db, Err, no_rows, external, is_lock_contention, Site, select_task,
  select_key, insert_task, insert_audit, update_task, tx_begin, tx_commit, for_audit, Pause,
  backoff, Env,
}

pub data Result {ℓ} (A : Type ℓ) : Type ℓ where
  ok : A → Result A
  err : Err → Result A

-- A call that reads and writes the database and returns a value or an error.
abbrev pub M : Type 0 → Type 0
M A = Db → Db × Result A

abbrev pub continue : {A B : Type 0} → Db × Result A → (A → M B) → Db × Result B
continue (db, ok a) f = f a db
continue (db, err e) f = (db, err e)

infixl 5 ◌>>=◌ ◌>>◌
unfoldable pub ◌>>=◌ : {A B : Type 0} → M A → (A → M B) → M B
◌>>=◌ m f db = continue (m db) f

abbrev pub ◌>>◌ : {A B : Type 0} → M A → M B → M B
m >> k = m >>= λ _. k

abbrev pub return : {A : Type 0} → A → M A
return a db = (db, ok a)

abbrev pub fail : {A : Type 0} → Err → M A
fail e db = (db, err e)

-- `if cond { return nil, e }`.
unfoldable pub fail_if : Bool → Err → M (Unit {0})
fail_if true e = fail e
fail_if false e = return tt

unfoldable pub raise : Option Err → M (Unit {0})
raise none = return tt
raise (some e) = fail e

abbrev pub map_result : {A : Type 0} → (Err → Err) → Db × Result A → Db × Result A
map_result f (db, ok a) = (db, ok a)
map_result f (db, err e) = (db, err (f e))

-- The error of an inner call, wrapped.
unfoldable pub map_error : {A : Type 0} → (Err → Err) → M A → M A
map_error f m db = map_result f (m db)

abbrev pub handle_result : {A B : Type 0} → Db × Result A → (Err → M B) → (A → M B) → Db × Result B
handle_result (db, ok a) on_error on_ok = on_ok a db
handle_result (db, err e) on_error on_ok = on_error e db

-- `if err := m; err != nil { on_error } ; on_ok`.
unfoldable pub handle : {A B : Type 0} → M A → (Err → M B) → (A → M B) → M B
handle m on_error on_ok db = handle_result (m db) on_error on_ok

-- A statement that the database may refuse; a refused one has no effect.
unfoldable pub statement : {A : Type 0} → Env → Site → ℕ → (Db → Db × Result A) → M A
statement env site k run db = elim (env.fault site k) [ none ↦ run db | some e ↦ (db, err e) ]

-- Other instances commit here.
unfoldable pub pause : Env → Pause → M (Unit {0})
pause env p db = (env.between p db, ok tt)

unfoldable pub or_no_rows : {A : Type 0} → Db → Option A → Db × Result A
or_no_rows db none = (db, err no_rows)
or_no_rows db (some a) = (db, ok a)

-- `SELECT … WHERE p` of one row: the first that fits.
module _ {ℓ} {A : Type ℓ} (p : A → Bool) where
  abbrev pub find : List A → Option A
  find [] = none
  find (x ∷ xs) = if p x then some x else find xs

  abbrev pub count : List A → ℕ
  count [] = 0
  count (x ∷ xs) = let rest = count xs in if p x then suc rest else rest

  -- `UPDATE … SET f WHERE p`.
  abbrev pub update : (A → A) → List A → List A
  update f [] = []
  update f (x ∷ xs) = (if p x then f x else x) ∷ update f xs

unfoldable pub select_tasks : Env → Site → ℕ → (Task → Bool) → M Task
select_tasks env site k p = statement env site k λ db. or_no_rows db (find p db.tasks)

unfoldable pub select_approvals : Env → Site → ℕ → (Approval → Bool) → M Approval
select_approvals env site k p = statement env site k λ db. or_no_rows db (find p db.approvals)

-- `UPDATE agent_tasks`, with the number of rows affected.
unfoldable pub update_tasks : Env → Site → ℕ → (Task → Bool) → (Task → Task) → M ℕ
update_tasks env site k p f =
    statement env site k λ db. (record db { tasks = update p f db.tasks }, ok (count p db.tasks))

unfoldable pub update_approvals : Env → Site → ℕ → (Approval → Bool) → (Approval → Approval) → M ℕ
update_approvals env site k p f =
    statement env site k
      λ db. (record db { approvals = update p f db.approvals }, ok (count p db.approvals))

-- `get` and `getOn`.
unfoldable pub get : Env → ℕ → String → M Task
get env k id = select_tasks env select_task k λ t. t.id == id

-- `getByTenantKey`; its second statement reads the row found by the first.
unfoldable pub get_by_tenant_key : Env → ℕ → String → String → M Task
get_by_tenant_key env k tenant key = do
  found ← select_tasks env select_key k λ t. t.tenant_id == tenant && t.idempotency_key == key
  get env k found.id

-- The columns that `updateTaskColumns` sets: all but `id` and `created_at`.
unfoldable pub set_columns : Task → Task → Task
set_columns new old = record new { id = old.id; created_at = old.created_at }

-- `updateWhere` and `updateWhereOn`: the whole row, where the condition holds.
unfoldable pub update_where : Env → ℕ → Task → (Task → Bool) → M Bool
update_where env k new p = do
  affected ← update_tasks env update_task k p (set_columns new)
  return (eqb affected 1)

-- PRIMARY KEY (id) and UNIQUE (tenant_id, idempotency_key).
unfoldable pub clashes : Task → Task → Bool
clashes new t =
    t.id == new.id || t.tenant_id == new.tenant_id && t.idempotency_key == new.idempotency_key

-- The INSERT of `insert` and `insertTaskOn`; the database refuses a row that clashes.
unfoldable pub insert_task_row : Env → ℕ → Task → M (Unit {0})
insert_task_row env k new = statement env insert_task k λ db.
    if any (clashes new) db.tasks
    then (db, err (external false env.unique_text))
    else (record db { tasks = db.tasks ++ new ∷ [] }, ok tt)

unfoldable pub insert_approval_on : Env → ℕ → Approval → M (Unit {0})
insert_approval_on env k new = statement env Site.insert_approval k λ db.
    if any (λ (a : Approval). a.id == new.id) db.approvals
    then (db, err (external false env.unique_text))
    else (record db { approvals = db.approvals ++ new ∷ [] }, ok tt)

unfoldable pub audit_row : Env → ℕ → Task → String → String → ℤ → Audit
audit_row env k task action actor usage = record {
  id = env.new_id for_audit k;
  task_id = task.id;
  tenant_id = task.tenant_id;
  actor = actor;
  action = action;
  to_status = task.status;
  approval_id = task.approval_id;
  usage = usage;
  created_at = env.now;
}

unfoldable pub insert_task_audit_on : Env → ℕ → Task → String → String → ℤ → M (Unit {0})
insert_task_audit_on env k task action actor usage = statement env insert_audit k λ db.
    if any (λ (a : Audit). a.id == env.new_id for_audit k) db.audits
    then (db, err (external false env.unique_text))
    else (record db { audits = db.audits ++ audit_row env k task action actor usage ∷ [] }, ok tt)

abbrev pub rollback : {A : Type 0} → Db → Db × Result A → Db × Result A
rollback db (db', ok a) = (db', ok a)
rollback db (db', err e) = (db, err e)

-- `transactOnce`: the body's changes are committed together or not at all.
unfoldable pub transact_once : {A : Type 0} → Env → ℕ → M A → M A
transact_once env k body db = rollback db (
    (do
      statement env tx_begin k (return tt)
      a ← body
      statement env tx_commit k (return tt)
      return a)
      db)

-- The wait before the next attempt: the context may end it, and other instances commit meanwhile.
unfoldable pub wait_backoff : Env → ℕ → M (Unit {0})
wait_backoff env k = do pause env (backoff k); raise (env.canceled_at k)

-- One round of the loop of `transact`: what the attempt left, and the attempts that remain.
abbrev pub retry_or : {A : Type 0} → Env → ℕ → M A → Db × Result A → Db × Result A
retry_or env k again (db, ok a) = (db, ok a)
retry_or env k again (db, err e) = if is_lock_contention e then again db else (db, err e)

-- `transact`: attempt `k`, with `left` attempts after it.
unfoldable pub transact_from : {A : Type 0} → Env → ℕ → ℕ → (ℕ → M A) → M A
transact_from env zero k body db = transact_once env k (body k) db
transact_from env (suc left) k body db =
    let again = wait_backoff env k >> transact_from env left (k + 1) body in
    retry_or env k again (transact_once env k (body k) db)

unfoldable pub transact : {A : Type 0} → Env → (ℕ → M A) → M A
transact env body = transact_from env 9 1 body

-- `ArgsHash`.
unfoldable pub hash_args : Env → String → String
unfolding trim_space
hash_args env args = env.sha256_hex (trim_space args)
