-- ===== src/Tasks/Intent.antt =====
-- `Reserve`, `RecordIntent` and `RenewLease` of tasks.go.
use Prim.Native.String.{String}
use text.Mathlib.Text.{◌==◌}
use gin_bear.Base.{◌&&◌, not, ℕ, ◌/◌, Bool, if◌then◌else◌, eqb}
use gin_bear.Base.Int.{ℤ, pos, pos_part, ltb_ℤ, leb_ℤ, add64, sub64}
use gin_bear.Tasks.Types.{
  Task, is_running, is_write, stale_worker, wrong_status, not_a_write, bad_amount,
  insufficient_budget, task_changed, for_nonce, renew_lease as renew_site, after_read, Env,
}
use gin_bear.Tasks.Sql.{M, ◌>>=◌, ◌>>◌, return, fail_if, pause, get, update_tasks, update_where}
use gin_bear.Tasks.Complete.{stamp}

-- The conditional write of both: the row must still be the running one of this version.
unfoldable pub write_intent : Env → String → ℕ → Task → String → M Task
write_intent env id version new during = do
  pause env after_read
  committed ←
      update_where env 0 new λ t. t.id == id && (eqb t.version version && is_running t.status)
  fail_if (not committed) (task_changed during)
  get env 1 id

-- What `Reserve` writes over the row that it read.
unfoldable pub reserved : Env → ℤ → Task → Task
reserved env amount t = stamp env (record t {
  budget_tokens = sub64 t.budget_tokens amount;
  reserved_tokens = add64 t.reserved_tokens amount;
  exec_nonce = env.new_id for_nonce 0;
})

-- `Reserve`.
unfoldable pub reserve : Env → String → ℕ → ℤ → M Task
reserve env id version amount = do
  task ← get env 0 id
  fail_if (not (eqb task.version version)) stale_worker
  fail_if (not (is_running task.status)) (wrong_status task.status "running")
  fail_if (not (is_write task.kind)) (not_a_write "reservation")
  if ltb_ℤ (pos 0) task.reserved_tokens
      then return task
      else (fail_if (leb_ℤ amount (pos 0)) bad_amount
          >> (fail_if (ltb_ℤ task.budget_tokens amount) insufficient_budget
              >> write_intent env id version (reserved env amount task) "reservation"))

-- What `RecordIntent` writes over the row that it read.
unfoldable pub intended : Env → Task → Task
intended env t = stamp env (record t { exec_nonce = env.new_id for_nonce 0 })

-- `RecordIntent`.
unfoldable pub record_intent : Env → String → ℕ → M Task
record_intent env id version = do
  task ← get env 0 id
  fail_if (not (eqb task.version version)) stale_worker
  fail_if (not (is_running task.status)) (wrong_status task.status "running")
  fail_if (not (is_write task.kind)) (not_a_write "execution intent")
  write_intent env id version (intended env task) "intent recording"

-- A lease in nanoseconds: not positive means one minute.
unfoldable pub lease_or_minute : ℤ → ℤ
lease_or_minute lease = if leb_ℤ lease (pos 0) then pos 60_000_000_000 else lease

-- `int64(lease / time.Second)` of a positive lease.
unfoldable pub lease_seconds : ℤ → ℤ
lease_seconds lease = pos (pos_part lease / 1_000_000_000)

-- `RenewLease`.
unfoldable pub renew_lease : Env → String → String → ℤ → M Bool
renew_lease env id owner lease = do
  affected ←
      update_tasks env renew_site 0
        (λ t. t.id == id && t.lease_owner == owner && is_running t.status)
        λ t. record t {
          lease_expires = add64 env.now (lease_seconds (lease_or_minute lease));
          updated_at = env.now;
        }
  return (eqb affected 1)
