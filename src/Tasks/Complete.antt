-- ===== src/Tasks/Complete.antt =====
-- `Complete` and `Cancel` of tasks.go.
use Prim.Native.String.{String}
use text.Mathlib.Text.{◌==◌}
use gin_bear.Base.{
  ◌&&◌, ◌||◌, not, ℕ, zero, suc, ◌+◌, Bool, true, Option, none, some, if◌then◌else◌, eqb,
}
use gin_bear.Base.Int.{ℤ, pos, ltb_ℤ, add64, sub64}
use gin_bear.Base.Text.{is_empty}
use gin_bear.Tasks.Types.{
  Task, queued, succeeded, failed, canceled, unknown, is_terminal, is_running, is_queued,
  is_waiting, is_unknown, is_write, Outcome, Err, is_unknown_result, message, negative_usage,
  stale_worker, next_version, after_read, in_loop, Env,
}
use gin_bear.Tasks.Sql.{
  M, ◌>>=◌, ◌>>◌, return, fail, fail_if, raise, pause, get, update_where, insert_task_audit_on,
  transact,
}

abbrev pub unknown_text : String
unknown_text = "external result unknown; reconcile, do not blind-retry"

-- A write whose execution intent is recorded.
abbrev pub has_intent : Task → Bool
has_intent t = is_write t.kind && not (is_empty t.exec_nonce)

-- The branch of `Complete` on an error, with the attempt already counted.
unfoldable pub settle_error : Task → Outcome → Err → Task
settle_error t outcome e =
    if is_unknown_result e || has_intent t
    then record t { status = unknown; error_text = unknown_text }
    else if outcome.retryable && ltb_ℤ t.attempts t.max_attempts
    then record t {
      status = queued;
      lease_owner = "";
      lease_expires = pos 0;
      error_text = message e;
    }
    else record t { status = failed; error_text = message e }

unfoldable pub settle_status : Task → Outcome → Option Err → Task
settle_status t outcome none = record t { status = succeeded; result = outcome.result }
settle_status t outcome (some e) = settle_error t outcome e

-- The accounting of `Complete`: an unknown result keeps its reservation.
unfoldable pub charge : ℤ → Task → Task
charge usage t =
    if is_unknown t.status
    then t
    else if ltb_ℤ (pos 0) t.reserved_tokens
    then record t {
      budget_tokens = add64 t.budget_tokens (sub64 t.reserved_tokens usage);
      reserved_tokens = pos 0;
    }
    else record t { budget_tokens = sub64 t.budget_tokens usage }

unfoldable pub count_attempt : Task → Task
count_attempt t = record t { attempts = add64 t.attempts (pos 1) }

unfoldable pub stamp : Env → Task → Task
stamp env t = record t { version = next_version t.version; updated_at = env.now }

-- What `Complete` writes over the row that it read.
unfoldable pub settled : Env → Outcome → Task → Task
settled env outcome t =
    stamp env (charge outcome.usage (settle_status (count_attempt t) outcome outcome.error))

-- The transaction of `Complete`; it reports whether the row was still the worker's.
unfoldable pub complete_tx : Env → String → ℕ → Task → Task → ℤ → ℕ → M Bool
complete_tx env id version task new usage k = do
  committed ←
      update_where env k new λ t. t.id == id && (eqb t.version version && is_running t.status)
  if committed && is_write new.kind
      then (insert_task_audit_on env k new "complete" task.lease_owner usage >> return true)
      else return committed

unfoldable pub complete_live : Env → String → ℕ → Outcome → Task → M Task
complete_live env id version outcome task = do
  pause env after_read
  transact env (complete_tx env id version task (settled env outcome task) outcome.usage)
  get env 1 id

-- `Complete`.
unfoldable pub complete : Env → String → ℕ → Outcome → M Task
complete env id version outcome = do
  fail_if (ltb_ℤ outcome.usage (pos 0)) negative_usage
  raise env.before_store
  task ← get env 0 id
  if is_terminal task.status
      then return task
      else if eqb task.version version
      then complete_live env id version outcome task
      else fail stale_worker

-- What `Cancel` writes over the row that it read.
unfoldable pub cancelled : Env → Task → Task
cancelled env t =
    let cleared = record t { lease_owner = ""; lease_expires = pos 0 } in
    stamp env (
      if is_running t.status && has_intent t
      then record cleared { status = unknown; error_text = unknown_text }
      else record cleared { status = canceled })

-- One round of the loop of `Cancel` on a live row: whether the write took.
unfoldable pub cancel_round : Env → ℕ → String → Task → M Bool
cancel_round env k id task = do
  pause env (in_loop k)
  update_where env k (cancelled env task) λ t.
      t.id == id
      && (eqb t.version task.version
          && (is_queued t.status || is_waiting t.status || is_running t.status))

-- The loop of `Cancel`, which has no bound in the source: `none` is a loop that `rounds` rounds did
-- not end.
unfoldable pub cancel : Env → ℕ → ℕ → String → M (Option Task)
cancel env zero k id = return none
cancel env (suc rounds) k id = do
  task ← get env k id
  let again = raise (env.canceled_at k) >> cancel env rounds (k + 1) id
  let found = get env (k + 1) id >>= λ t. return (some t)
  if is_terminal task.status
      then return (some task)
      else (cancel_round env k id task >>= λ committed. if committed then found else again)
