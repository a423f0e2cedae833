-- ===== src/Tasks/Reconcile.antt =====
-- `ConfirmUnknownAs` and `RequeueUnknownAs` of tasks.go.
use Prim.Native.String.{String}
use text.Mathlib.Text.{◌==◌}
use gin_bear.Base.{◌&&◌, not, ℕ, if◌then◌else◌, eqb}
use gin_bear.Base.Int.{ℤ, pos, ltb_ℤ, add64, sub64}
use gin_bear.Base.Text.{is_blank}
use gin_bear.Tasks.Types.{
  Task, succeeded, queued, waiting, is_unknown, is_write, create_approval, negative_usage,
  actor_required, wrong_status, task_changed, Env,
}
use gin_bear.Tasks.Sql.{
  M, ◌>>=◌, ◌>>◌, return, fail_if, map_error, get, update_where, insert_approval_on,
  insert_task_audit_on, transact,
}
use gin_bear.Tasks.Complete.{stamp, count_attempt}
use gin_bear.Tasks.Submit.{new_approval}

-- What the confirmation writes over the row that it read.
unfoldable pub confirmed : Env → String → ℤ → Task → Task
confirmed env result usage t = stamp env (
    count_attempt (record t {
      status = succeeded;
      result = result;
      budget_tokens = add64 t.budget_tokens (sub64 t.reserved_tokens usage);
      reserved_tokens = pos 0;
    }))

-- The conditional write of both: the row must still be the unknown one of the version read.
unfoldable pub leave_unknown : Env → ℕ → String → Task → Task → String → M (Unit {0})
leave_unknown env k id old new during = do
  committed ←
      update_where env k new λ t. t.id == id && (is_unknown t.status && eqb t.version old.version)
  fail_if (not committed) (task_changed during)

unfoldable pub confirm_tx : Env → String → String → String → ℤ → ℕ → M (Unit {0})
confirm_tx env id actor result usage k = do
  task ← get env k id
  fail_if (not (is_unknown task.status)) (wrong_status task.status "unknown")
  leave_unknown env k id task (confirmed env result usage task) "confirmation"
  insert_task_audit_on env k (confirmed env result usage task) "confirm-unknown" actor usage

-- `ConfirmUnknownAs`.
unfoldable pub confirm_unknown_as : Env → String → String → String → ℤ → M Task
confirm_unknown_as env id actor result usage = do
  fail_if (ltb_ℤ usage (pos 0)) negative_usage
  fail_if (is_blank actor) actor_required
  transact env (confirm_tx env id actor result usage)
  get env 0 id

-- The reservation goes back to the budget, and the intent is forgotten.
unfoldable pub refunded : Task → Task
refunded t = record t {
  budget_tokens = add64 t.budget_tokens t.reserved_tokens;
  reserved_tokens = pos 0;
  exec_nonce = "";
  result = "";
  error_text = "";
}

-- A write goes back behind a fresh approval, any other task to the queue.
unfoldable pub regated : Env → ℕ → Task → M Task
regated env k t =
    if is_write t.kind
    then (map_error create_approval (insert_approval_on env k (new_approval env k t))
        >> return (record t { approval_id = (new_approval env k t).id; status = waiting }))
    else return (record t { status = queued })

-- `requeueUnknownTx`.
unfoldable pub requeue_tx : Env → String → String → ℕ → M (Unit {0})
requeue_tx env id actor k = do
  task ← get env k id
  fail_if (not (is_unknown task.status)) (wrong_status task.status "unknown")
  gated ← regated env k (refunded task)
  leave_unknown env k id task (stamp env gated) "requeue"
  insert_task_audit_on env k (stamp env gated) "requeue-unknown" actor (pos 0)

-- `RequeueUnknownAs`.
unfoldable pub requeue_unknown_as : Env → String → String → M Task
requeue_unknown_as env id actor = do
  fail_if (is_blank actor) actor_required
  transact env (requeue_tx env id actor)
  get env 0 id
