-- ===== src/Tasks/Approve.antt =====
-- `Approve` of tasks.go.
pub mod Binding
use Prim.Native.String.{String}
use text.Mathlib.Text.{◌==◌}
use gin_bear.Base.{◌&&◌, not, ℕ, Bool, true, false, Option, none, some, if◌then◌else◌, eqb}
use gin_bear.Base.Int.{pos, ltb_ℤ}
use gin_bear.Base.Text.{is_blank}
use gin_bear.Tasks.Types.{
  Task, Approval, queued, is_waiting, Err, is_no_rows, operator_required, approval_not_found,
  already_consumed, approval_expired, parameters_changed, policy_changed, no_task_for_approval,
  wrong_status, owner_cannot_approve, task_changed, select_approval, select_approved,
  consume_approval, after_read, Env,
}
use gin_bear.Tasks.Sql.{
  M, ◌>>=◌, ◌>>◌, return, fail_if, raise, map_error, pause, get, select_tasks, select_approvals,
  update_approvals, update_where, insert_task_audit_on, transact, hash_args,
}

abbrev pub no_rows_as : Err → Err → Err
no_rows_as named e = if is_no_rows e then named else e

abbrev pub run_hook : Option (Task → Option Err) → Task → M (Unit {0})
run_hook none task = return tt
run_hook (some hook) task = raise (hook task)

-- `SET consumed = 1, consumed_by = ?, operator = ?`.
abbrev pub consume : String → Approval → Approval
consume operator a = record a { consumed = true; consumed_by = operator; operator = operator }

-- The transaction of `Approve`.
unfoldable pub approve_tx : Env → String → String → ℕ → M (Unit {0})
approve_tx env approval_id operator k = do
  affected ←
      update_approvals env consume_approval k (λ a. a.id == approval_id && not a.consumed)
        (consume operator)
  fail_if (not (eqb affected 1)) already_consumed
  found ←
      map_error (no_rows_as no_task_for_approval)
        (select_tasks env select_approved k λ t. t.approval_id == approval_id)
  task ← get env k found.id
  fail_if (not (is_waiting task.status)) (wrong_status task.status "waiting for approval")
  fail_if (task.owner == operator) owner_cannot_approve
  run_hook env.before_approval_commit task
  let moved = record task { status = queued; updated_at = env.now }
  committed ← update_where env k moved λ t. t.id == found.id && is_waiting t.status
  fail_if (not committed) (task_changed "approval")
  insert_task_audit_on env k moved "approve" operator (pos 0)

-- The checks of `Approve` on the approval that it has read.
unfoldable pub check_approval : Env → Approval → String → M (Unit {0})
check_approval env approval args = do
  fail_if approval.consumed already_consumed
  fail_if (ltb_ℤ approval.expires_at env.now) approval_expired
  fail_if (not (hash_args env args == approval.args_hash)) parameters_changed
  fail_if (not (approval.policy_version == env.policy_version)) policy_changed

-- `Approve`.
unfoldable pub approve : Env → String → String → String → M Task
approve env approval_id operator args = do
  fail_if (is_blank operator) operator_required
  approval ←
      map_error (no_rows_as approval_not_found)
        (select_approvals env select_approval 0 λ a. a.id == approval_id)
  check_approval env approval args
  pause env after_read
  transact env (approve_tx env approval_id operator)
  found ← select_tasks env select_approved 0 λ t. t.approval_id == approval_id
  get env 0 found.id
