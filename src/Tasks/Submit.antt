-- ===== src/Tasks/Submit.antt =====
-- `Submit`, `insert` and `newApproval` of tasks.go.
use Prim.Native.String.{String}
use Prim.Native.String
use gin_bear.Base.{◌||◌, not, ℕ, Bool, true, false, if◌then◌else◌}
use gin_bear.Base.Int.{pos, leb_ℤ, add64}
use gin_bear.Base.Text.{is_blank}
use gin_bear.Tasks.Types.{
  Task, Approval, Kind, readonly, write, is_write, queued, waiting, Err, tenant_and_key_required,
  bad_kind, create_approval, duplicate_task, is_no_rows, is_unique_violation, for_task,
  for_approval, after_read, Env,
}
use gin_bear.Tasks.Sql.{
  M, ◌>>◌, return, fail, fail_if, map_error, handle, pause, get, get_by_tenant_key, insert_task_row,
  insert_approval_on, insert_task_audit_on, transact, hash_args,
}

unfoldable pub new_approval : Env → ℕ → Task → Approval
new_approval env k task = record {
  id = String.◌++◌ "apr_" (env.new_id for_approval k);
  tenant_id = task.tenant_id;
  operator = "";
  tool = task.tool;
  args_hash = task.args_hash;
  policy_version = env.policy_version;
  expires_at = add64 env.now (pos 3600);
  consumed = false;
  consumed_by = "";
  created_at = env.now;
}

-- `insert`: the direct INSERT, with a unique violation wrapped.
unfoldable pub insert : Env → Task → M (Unit {0})
insert env task =
    map_error (λ e. if is_unique_violation e then duplicate_task e else e)
      (insert_task_row env 0 task)

-- The transaction of a write: its approval, the waiting task and the audit row.
unfoldable pub submit_write : Env → Task → ℕ → M (Unit {0})
submit_write env task k = do
  let approval = new_approval env k task
  map_error create_approval (insert_approval_on env k approval)
  let held = record task { approval_id = approval.id; status = waiting }
  insert_task_row env k held
  insert_task_audit_on env k held "submit" held.owner (pos 0)

-- The winner of a lost race, or else the error.
unfoldable pub winner_or : Env → Task → Err → M Task
winner_or env task e =
    handle (get_by_tenant_key env 1 task.tenant_id task.idempotency_key) (λ _. fail e) return

-- The fields that `Submit` fills in.
unfoldable pub prepared : Env → Task → Task
prepared env task = record task {
  id = env.new_id for_task 0;
  args_hash = hash_args env task.args;
  status = queued;
  policy_version = env.policy_version;
  created_at = env.now;
  updated_at = env.now;
}

-- A write that was not stored: only a unique violation is a lost race.
unfoldable pub winner_if_unique : Env → Task → Err → M Task
winner_if_unique env task e = if is_unique_violation e then winner_or env task e else fail e

unfoldable pub submit_new : Env → Task → M Task
submit_new env task =
    if is_write task.kind
    then handle (transact env (submit_write env task)) (winner_if_unique env task)
        (λ _. get env 2 task.id)
    else handle (insert env task) (winner_or env task) (λ _. get env 2 task.id)

abbrev pub is_known : Kind → Bool
is_known readonly = true
is_known write = true
is_known _ = false

abbrev pub default_attempts : Task → Task
default_attempts task = record task {
  max_attempts = if leb_ℤ task.max_attempts (pos 0) then pos 3 else task.max_attempts;
}

-- `Submit`.
unfoldable pub submit : Env → Task → M Task
submit env given = do
  fail_if (is_blank given.tenant_id || is_blank given.idempotency_key) tenant_and_key_required
  fail_if (not (is_known given.kind)) bad_kind
  let task = default_attempts given
  handle (get_by_tenant_key env 0 task.tenant_id task.idempotency_key)
      (λ e.
        if is_no_rows e
        then (pause env after_read >> submit_new env (prepared env task))
        else fail e)
      return
