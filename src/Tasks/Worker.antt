-- ===== src/Tasks/Worker.antt =====
-- `Worker.RunOnce` and `checkWriteApproval` of tasks.go. The heartbeat is `RenewLease` at its own
-- times, so it enters a run only through what others commit.
use Prim.Native.String.{String}
use text.Mathlib.Text.{◌==◌}
use gin_bear.Base.{◌||◌, not, Bool, true, false, Option, none, some, if◌then◌else◌}
use gin_bear.Base.Int.{ℤ, pos, ltb_ℤ}
use gin_bear.Base.Text.{is_empty}
use gin_bear.Tasks.Types.{
  Task, Approval, is_write, Outcome, Err, no_approval, approval_gone, not_covered, policy_changed,
  approval_expired, no_authorization, select_approval, while_executing, Env,
}
use gin_bear.Tasks.Sql.{M, ◌>>=◌, ◌>>◌, fail_if, raise, map_error, handle, pause, select_approvals}
use gin_bear.Tasks.Approve.{no_rows_as, run_hook}
use gin_bear.Tasks.Claim.{claim}
use gin_bear.Tasks.Complete.{complete}
use gin_bear.Tasks.Intent.{reserve, record_intent, lease_or_minute}

-- The executor and the authorizer are the application's; the database may change while they run.
pub record Worker : Type 0 where
  pub owner : String
  pub lease : ℤ
  pub executor : Task → Outcome
  pub write_authorize : Option (Task → Option Err)
  pub write_reserve_tokens : ℤ

-- What the approval must still say at execution time.
unfoldable pub covers : Approval → Task → Bool
covers a task = not (
    not a.consumed
    || not (a.tenant_id == task.tenant_id)
    || not (a.tool == task.tool)
    || not (a.args_hash == task.args_hash))

-- `checkWriteApproval`.
unfoldable pub check_write_approval : Env → Task → M (Unit {0})
check_write_approval env task = do
  fail_if (is_empty task.approval_id) no_approval
  a ←
      map_error (no_rows_as approval_gone)
        (select_approvals env select_approval 0 λ a. a.id == task.approval_id)
  fail_if (not (covers a task)) not_covered
  fail_if (not (a.policy_version == env.policy_version)) policy_changed
  fail_if (ltb_ℤ a.expires_at env.now) approval_expired

abbrev pub authorize : Option (Task → Option Err) → Task → M (Unit {0})
authorize none task = raise (some no_authorization)
authorize (some check) task = raise (check task)

-- The steps of `RunOnce` on a write before the executor: the row with its recorded intent.
unfoldable pub prepare_write : Env → Worker → Task → M Task
prepare_write env w task = do
  check_write_approval env task
  authorize w.write_authorize task
  if ltb_ℤ (pos 0) w.write_reserve_tokens
      then reserve env task.id task.version w.write_reserve_tokens
      else record_intent env task.id task.version

abbrev pub failed_with : Err → Bool → Outcome
failed_with e retryable = record {
  result = "";
  usage = pos 0;
  retryable = retryable;
  error = some e;
}

-- The executor runs on the task that it is handed while other instances commit, and its outcome is
-- stored.
unfoldable pub execute : Env → Worker → Task → M Task
execute env w task = do
  pause env while_executing
  complete env task.id task.version (w.executor task)

-- `RunOnce` after the claim: the checks are made in one environment, at one time, and the outcome is
-- stored in another.
unfoldable pub run_claimed : Env → Env → Worker → Task → M Task
run_claimed checking storing w task =
    handle (run_hook checking.before_execute task)
      (λ e. complete storing task.id task.version (failed_with e true))
      λ _.
        if is_write task.kind
        then handle (prepare_write checking w task)
            (λ e. complete storing task.id task.version (failed_with e false)) (execute storing w)
        else execute storing w task

-- `RunOnce`.
unfoldable pub run_once : Env → Env → Env → Worker → M Task
run_once claiming checking storing w = do
  task ← claim claiming w.owner (lease_or_minute w.lease)
  run_claimed checking storing w task
