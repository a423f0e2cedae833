-- ===== src/Tasks/Sweep.antt =====
-- `SweepTimeouts` and `Recover` of tasks.go.

use gin_bear.Base.{◌&&◌, ◌||◌, not, ℕ, ◌+◌, Bool}
use gin_bear.Base.Int.{pos, ltb_ℤ, leb_ℤ}
use gin_bear.Tasks.Types.{
  Task, Status, queued, timed_out, unknown, is_running, is_queued, is_waiting, next_version,
  sweep_unknown, sweep_timeout, recover_requeue, recover_unknown, after_read, Env,
}
use gin_bear.Tasks.Sql.{M, ◌>>=◌, ◌>>◌, return, pause, update_tasks, transact}
use gin_bear.Tasks.Complete.{has_intent, unknown_text}

-- `expires_at > 0 AND expires_at <= cutoff`.
unfoldable pub is_expired : Env → Task → Bool
is_expired env t = ltb_ℤ (pos 0) t.expires_at && leb_ℤ t.expires_at env.now

unfoldable pub unleased : Env → Status → Task → Task
unleased env status t = record t {
  status = status;
  lease_owner = "";
  lease_expires = pos 0;
  version = next_version t.version;
  updated_at = env.now;
}

-- What `SweepTimeouts` writes over an expired row whose write may have run.
abbrev pub swept : Env → Task → Task
swept env t = record (unleased env unknown t) { error_text = unknown_text }

-- The transaction of `SweepTimeouts`.
unfoldable pub sweep_tx : Env → ℕ → M ℕ
sweep_tx env k = do
  unknowns ←
      update_tasks env sweep_unknown k
        (λ t. is_running t.status && has_intent t && is_expired env t) (swept env)
  timeouts ←
      update_tasks env sweep_timeout k
        (λ t.
          (is_queued t.status || is_running t.status || is_waiting t.status)
          && not (is_running t.status && has_intent t)
          && is_expired env t)
        (unleased env timed_out)
  return (unknowns + timeouts)

-- `SweepTimeouts`.
unfoldable pub sweep_timeouts : Env → M ℕ
sweep_timeouts env = transact env (sweep_tx env)

-- What `Recover` writes over a lapsed row whose write may have run.
abbrev pub recovered : Env → Task → Task
recovered env t = unleased env unknown t

-- A running row whose lease has run out.
unfoldable pub is_lapsed : Env → Task → Bool
is_lapsed env t = is_running t.status && leb_ℤ t.lease_expires env.now

-- `Recover`: two statements, each committed by itself.
unfoldable pub recover : Env → M ℕ
recover env = do
  moved ←
      update_tasks env recover_requeue 0 (λ t. is_lapsed env t && not (has_intent t))
        (unleased env queued)
  pause env after_read
  held ← update_tasks env recover_unknown 0 (λ t. is_lapsed env t && has_intent t) (recovered env)
  return (moved + held)
