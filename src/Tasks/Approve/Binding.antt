-- ===== src/Tasks/Approve/Binding.antt =====
-- What an approval of `Approve` in tasks.go binds.
use Prim.Native.String.{String}
use text.Mathlib.Text.{◌==◌}
use gin_bear.Base.{
  ℕ, ◌≡◌, refl, ◌∙◌, ap, subst, Bool, true, false, Bool-cases, inl, inr, Option, none, some, List,
  [], ◌∷◌, ◌++◌, eqb, ◌&&◌, not,
}
use gin_bear.Base.Int.{pos, ltb_ℤ}
use gin_bear.Tasks.Types.{
  Task, Approval, Db, Err, queued, is_waiting, after_read, backoff, Env, select_approved,
}
use gin_bear.Tasks.Sql.{
  M, Result, ok, ◌>>=◌, ◌>>◌, find, count, update, set_columns, audit_row, hash_args, transact,
}
use gin_bear.Tasks.Atomic.{Meanwhile, here, wait, Ends, commits, drops, transact-Ends, >>=-eq-ok}
use gin_bear.Tasks.Inversion.{
  fail_if-eq-ok, raise-eq-ok, pause-eq-ok, select_tasks-eq-ok, get-eq-ok, select_approvals-eq-ok,
  map_error-eq-ok, update_approvals-eq-ok, checked-eq-ok, update_where-eq-ok,
  insert_task_audit_on-eq-ok, get-same,
}
use gin_bear.Tasks.Approve.{approve, approve_tx, check_approval, consume, run_hook}

-- The approval that was read covers the call.
pub record Covers (env : Env) (args : String) (a : Approval) : Type 0 where
  pub unused : a.consumed ≡ false
  pub fresh : ltb_ℤ a.expires_at env.now ≡ false
  pub same_args : (hash_args env args == a.args_hash) ≡ true
  pub same_policy : (a.policy_version == env.policy_version) ≡ true

not-eq-false : (b : Bool) → not b ≡ false → b ≡ true
not-eq-false true h = refl
not-eq-false false h = absurd (cc)

check_approval-Covers :
    {B : Type 0} (env : Env) (a : Approval) (args : String) (m : M B) (db : Db) {db' : Db} {b : B}
    → (check_approval env a args >> m) db ≡ (db', ok b)
    → Covers env args a × (m db ≡ (db', ok b))
unfolding check_approval
check_approval-Covers env a args m db h =
    let (d, u, checked, rest) = >>=-eq-ok (check_approval env a args) (λ _. m) db h in
    let (unused, h₁) = fail_if-eq-ok db _ _ _ checked in
    let (fresh, h₂) = fail_if-eq-ok db _ _ _ h₁ in
    let (same_args, h₃) = fail_if-eq-ok db _ _ _ h₂ in
    let (same_policy, same) = checked-eq-ok _ _ db h₃ in
    (
      record {
        unused = unused;
        fresh = fresh;
        same_args = not-eq-false _ same_args;
        same_policy = not-eq-false _ same_policy;
      },
      ap m same ∙ rest,
    )

run_hook-eq-ok :
    {B : Type 0} (o : Option (Task → Option Err)) (t : Task) (m : M B) (db : Db) {db' : Db} {b : B}
    → (run_hook o t >> m) db ≡ (db', ok b)
    → m db ≡ (db', ok b)
unfolding ◌>>=◌
run_hook-eq-ok none t m db h = h
run_hook-eq-ok (some hook) t m db h = (raise-eq-ok db (hook t) m h).1

-- What the transaction of an approval has done to the rows `start`.
pub record Moves (env : Env) (approval_id operator : String) (k : ℕ) (start end : Db) : Type 0 where
  pub task : Task
  pub owned : Task
  pub usable :
      eqb (count (λ (a : Approval). a.id == approval_id && not a.consumed) start.approvals) 1 ≡ true
  pub bound : find (λ t. t.approval_id == approval_id) start.tasks ≡ some owned
  pub read : find (λ t. t.id == owned.id) start.tasks ≡ some task
  pub waits : is_waiting task.status ≡ true
  pub not_owner : (task.owner == operator) ≡ false
  pub approvals :
      end.approvals
      ≡ update (λ a. a.id == approval_id && not a.consumed) (consume operator) start.approvals
  pub tasks :
      end.tasks
      ≡ update
          (λ t. t.id == owned.id && is_waiting t.status)
          (set_columns (record task { status = queued; updated_at = env.now }))
          start.tasks
  pub audits :
      end.audits
      ≡ start.audits
        ++ audit_row env k
            (record task { status = queued; updated_at = env.now })
            "approve"
            operator
            (pos 0)
          ∷ []

approve_tx-Moves :
    (env : Env) (approval_id operator : String) (k : ℕ) (start : Db) {end : Db} {u : Unit {0}}
    → approve_tx env approval_id operator k start ≡ (end, ok u)
    → Moves env approval_id operator k start end
unfolding approve_tx
approve_tx-Moves env approval_id operator k start h =
    let h₁ = update_approvals-eq-ok start _ _ k _ _ _ h in
    let db₁ : Db = record start {
      approvals =
          update (λ a. a.id == approval_id && not a.consumed) (consume operator) start.approvals;
    } in
    let (usable, h₂) = fail_if-eq-ok db₁ _ _ _ h₁ in
    let h₃ = map_error-eq-ok db₁ _ _ _ h₂ in
    let (owned, bound, h₄) = select_tasks-eq-ok db₁ env select_approved k _ _ h₃ in
    let (task, read, h₅) = get-eq-ok db₁ env k owned.id _ h₄ in
    let (waits, h₆) = fail_if-eq-ok db₁ _ _ _ h₅ in
    let (not_owner, h₇) = fail_if-eq-ok db₁ _ _ _ h₆ in
    let h₈ = run_hook-eq-ok _ task _ db₁ h₇ in
    let h₉ = update_where-eq-ok db₁ env k _ _ _ h₈ in
    let (moved, h₁₀) = fail_if-eq-ok _ _ _ _ h₉ in
    let end_is = insert_task_audit_on-eq-ok env k _ _ _ _ _ h₁₀ in
    record {
      task = task;
      owned = owned;
      usable = not-eq-false _ usable;
      bound = bound;
      read = read;
      waits = not-eq-false _ waits;
      not_owner = not_owner;
      approvals = ap (λ d. d.approvals) end_is;
      tasks = ap (λ d. d.tasks) end_is;
      audits = ap (λ d. d.audits) end_is;
    }

-- Everything that a successful approval establishes.
pub record Approved (env : Env) (approval_id operator args : String) (db end : Db) : Type 0 where
  pub approval : Approval
  pub found : find (λ a. a.id == approval_id) db.approvals ≡ some approval
  pub covers : Covers env args approval
  pub start : Db
  pub meanwhile : Meanwhile env (env.between after_read db) start
  pub attempt : ℕ
  pub moves : Moves env approval_id operator attempt start end

Moves-after :
    (env : Env) (approval_id operator : String) {db end : Db} {r : Db × Result (Unit {0})}
    {u : Unit {0}}
    → Ends env (approve_tx env approval_id operator) db r
    → r ≡ (end, ok u)
    → (start : Db) × (k : ℕ) × Meanwhile env db start × Moves env approval_id operator k start end
Moves-after env approval_id operator (commits {db' = start} k w ran) e =
    (start, k, w, approve_tx-Moves env approval_id operator k start (ran ∙ e))
Moves-after env approval_id operator (drops {e = x} w) e =
    absurd (cc (ap (λ (p : Db × Result (Unit {0})). p.1) e))

-- An approval that succeeds has read an unused, unexpired approval of the current policy whose hash
-- is that of the arguments given. In one transaction, on the rows that others left, it has used the
-- approval up, moved the task bound to it, which was waiting and is not the operator's own, to the
-- queue, and added one audit row. No other approval, task or audit row is changed.
pub approve-Approved :
    (env : Env) (approval_id operator args : String) (db : Db) {end : Db} {t : Task}
    → approve env approval_id operator args db ≡ (end, ok t)
    → Approved env approval_id operator args db end
unfolding approve
approve-Approved env approval_id operator args db {end} h =
    let (_, h₁) = fail_if-eq-ok db _ _ _ h in
    let (a, found, h₂) = select_approvals-eq-ok db _ _ _ _ _ (map_error-eq-ok db _ _ _ h₁) in
    let (covers, h₃) = check_approval-Covers env a args _ db h₂ in
    let h₄ = pause-eq-ok db env after_read _ h₃ in
    let (d, u, ran, h₅) = >>=-eq-ok (transact env (approve_tx env approval_id operator)) _ _ h₄ in
    let (owned, _, h₆) = select_tasks-eq-ok d env select_approved 0 _ _ h₅ in
    let (same, _) = get-same env 0 owned.id d h₆ in
    let (start, k, w, moves) =
      Moves-after env approval_id operator
        (transact-Ends env (approve_tx env approval_id operator) _) ran in
    record {
      approval = a;
      found = found;
      covers = covers;
      start = start;
      meanwhile = w;
      attempt = k;
      moves = subst (Moves env approval_id operator k start) same moves;
    }

-- No row of the approval is left to use.
abbrev pub IsSpent : String → Db → Type 0
IsSpent approval_id db =
    count (λ (a : Approval). a.id == approval_id && not a.consumed) db.approvals ≡ 0

count-update :
    (p : Approval → Bool) (f : Approval → Approval) (xs : List Approval)
    → ((a : Approval) → p (f a) ≡ false)
    → count p (update p f xs) ≡ 0
count-update p f [] h = refl
count-update p f (a ∷ as') h = elim (Bool-cases (p a)) [
  | inl hit ↦ rw (hit, h a) (count-update p f as' h)
  | inr miss ↦ rw (miss, miss) (count-update p f as' h)
]

Moves-IsSpent :
    (env : Env) (approval_id operator : String) (k : ℕ) {start end : Db}
    → Moves env approval_id operator k start end
    → IsSpent approval_id end
Moves-IsSpent env approval_id operator k {start} m =
    rw m.approvals
      (count-update _ (consume operator) start.approvals (λ a. used (a.id == approval_id)))
  where
    used : (b : Bool) → (b && not true) ≡ false
    used true = refl
    used false = refl

Meanwhile-IsSpent :
    (approval_id : String) {env : Env} {db db' : Db}
    → ((k : ℕ) (d : Db) → IsSpent approval_id d → IsSpent approval_id (env.between (backoff k) d))
    → IsSpent approval_id db
    → Meanwhile env db db'
    → IsSpent approval_id db'
Meanwhile-IsSpent approval_id keep h here = h
Meanwhile-IsSpent approval_id keep h (wait k w) = keep _ _ (Meanwhile-IsSpent approval_id keep h w)

-- An approval is used once. Once a call on it has succeeded, no other call by any operator, with any
-- arguments, succeeds whose transaction has not begun by then, be its read of the approval earlier or
-- later: `read` is any database, and the rows on which that transaction begins are those that the
-- success has left or later ones. Other instances leave used approvals used.
pub approve_once :
    (first second : Env) (approval_id operator args operator' args' : String) (db read : Db)
    {db' db'' : Db} {t t' : Task}
    → approve first approval_id operator args db ≡ (db', ok t)
    → (IsSpent approval_id db' → IsSpent approval_id (second.between after_read read))
    → ((k : ℕ) (d : Db)
        → IsSpent approval_id d
        → IsSpent approval_id (second.between (backoff k) d))
    → ¬ (approve second approval_id operator' args' read ≡ (db'', ok t'))
approve_once first second approval_id operator args operator' args' db read once later keep again =
    let before = approve-Approved first approval_id operator args db once in
    let after = approve-Approved second approval_id operator' args' read again in
    let spent = Moves-IsSpent first approval_id operator before.attempt before.moves in
    let still : IsSpent approval_id after.start =
      Meanwhile-IsSpent approval_id keep (later spent) after.meanwhile in
    cc (rw still at after.moves.usable)
