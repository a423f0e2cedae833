-- ===== src/Tasks/Blind/Calls.antt =====
-- The row in doubt under the single calls of tasks.go.
use Prim.Native.String.{String}
use text.Mathlib.Text.{◌==◌}
use gin_bear.Base.{
  ℕ, zero, suc, ◌+◌, ◌≡◌, refl, true, false, Option, none, some, arith, eqb, ◌&&◌, not,
}
use gin_bear.Base.Int.{ℤ, pos, ltb_ℤ}
use gin_bear.Base.Text.{is_empty}
use gin_bear.Tasks.Types.{
  Task, Db, Err, Env, Pause, Outcome, is_terminal, is_running, is_write, stale_worker, for_nonce,
  unknown, timed_out, queued, after_read, in_loop, sweep_unknown, sweep_timeout, recover_requeue,
  recover_unknown,
}
use gin_bear.Tasks.Approve.{run_hook}
use gin_bear.Tasks.Complete.{
  complete, complete_live, complete_tx, cancel, cancel_round, has_intent, settled, cancelled,
  unknown_text,
}
use gin_bear.Tasks.Sweep.{sweep_timeouts, sweep_tx, recover, is_lapsed, is_expired, unleased}
use gin_bear.Tasks.Intent.{reserve, record_intent, write_intent, renew_lease, reserved, intended}
use gin_bear.Tasks.Reconcile.{confirm_unknown_as, confirm_tx, leave_unknown, confirmed}
use gin_bear.Tasks.Keeps.{
  Keeps, Any, keeps-bind, keeps-return, keeps-fail, keeps-fail_if, keeps-if, keeps-raise,
  keeps-pause, keeps-transact, keeps-weaken,
}
use gin_bear.Tasks.Blind.{in_doubt, HeldRow, Held}
use gin_bear.Tasks.Blind.Steps.{
  keeps-get, keeps-update_tasks, keeps-update_where, keeps-insert_task_audit_on,
}
use gin_bear.Tasks.Blind.Pure.{
  in_doubt-settled, in_doubt-cancelled, in_doubt-reserved, in_doubt-intended, in_doubt-confirmed,
  in_doubt-unknown,
}

module _ {i : String} (env : Env)
    (others : (q : Pause) (d : Db) → Held i d → Held i (env.between q d)) where
  pub keeps-hook : (o : Option (Task → Option Err)) (t : Task) → Keeps (Held i) (run_hook o t) Any
  keeps-hook none t = keeps-return tt tt
  keeps-hook (some hook) t = keeps-raise (hook t)

  pub keeps-complete_tx :
      (id : String) (version : ℕ) (old new : Task) (usage : ℤ) (k : ℕ)
      → HeldRow i old
      → (old.id == id) ≡ true
      → (in_doubt old ≡ true → in_doubt new ≡ true)
      → Keeps (Held i) (complete_tx env id version old new usage k) Any
  unfolding complete_tx
  keeps-complete_tx id version old new usage k held same still =
      keeps-bind (keeps-update_where env k id old new _ held same still) λ committed _.
        keeps-if (committed && is_write new.kind)
          (λ _.
            keeps-bind (keeps-insert_task_audit_on env k new _ _ usage) λ _ _. keeps-return _ tt)
          λ _. keeps-return _ tt

  keeps-complete_live :
      (id : String) (version : ℕ) (o : Outcome) (t : Task)
      → HeldRow i t
      → (t.id == id) ≡ true
      → Keeps (Held i) (complete_live env id version o t) Any
  unfolding complete_live
  keeps-complete_live id version o t held same =
      keeps-bind (keeps-pause env after_read (others after_read)) λ _ _.
        keeps-bind
          (keeps-transact env others _ (λ k.
            keeps-complete_tx id version t (settled env o t) o.usage k held same
              (in_doubt-settled env o t)))
          λ _ _. keeps-weaken (λ _ _. tt) (keeps-get env 1 id)

  pub keeps-complete :
      (id : String) (version : ℕ) (o : Outcome) → Keeps (Held i) (complete env id version o) Any
  unfolding complete
  keeps-complete id version o = keeps-bind (keeps-fail_if _ _) λ _ _.
      keeps-bind (keeps-raise _) λ _ _. keeps-bind (keeps-get env 0 id) λ t h.
        keeps-if (is_terminal t.status) (λ _. keeps-return t tt)
          λ _.
            keeps-if (eqb t.version version) (λ _. keeps-complete_live id version o t h.0 h.1)
              λ _. keeps-fail stale_worker

  keeps-cancel_round :
      (k : ℕ) (id : String) (t : Task)
      → HeldRow i t
      → (t.id == id) ≡ true
      → is_terminal t.status ≡ false
      → Keeps (Held i) (cancel_round env k id t) Any
  unfolding cancel_round
  keeps-cancel_round k id t held same live =
      keeps-bind (keeps-pause env (in_loop k) (others (in_loop k))) λ _ _.
        keeps-update_where env k id t (cancelled env t) _ held same (in_doubt-cancelled env t live)

  pub keeps-cancel : (rounds k : ℕ) (id : String) → Keeps (Held i) (cancel env rounds k id) Any
  unfolding cancel
  keeps-cancel zero k id = keeps-return none tt
  keeps-cancel (suc rounds) k id = keeps-bind (keeps-get env k id) λ t h.
      keeps-if (is_terminal t.status) (λ _. keeps-return (some t) tt)
        λ live. keeps-bind (keeps-cancel_round k id t h.0 h.1 live) λ committed _.
          keeps-if committed
            (λ _. keeps-bind (keeps-get env (k + 1) id) λ u _. keeps-return (some u) tt)
            λ _. keeps-bind (keeps-raise (env.canceled_at k)) λ _ _. keeps-cancel rounds (k + 1) id

  keeps-sweep_tx : (k : ℕ) → Keeps (Held i) (sweep_tx env k) Any
  unfolding sweep_tx unleased
  keeps-sweep_tx k =
      keeps-bind
        (keeps-update_tasks env sweep_unknown k
          (λ t. is_running t.status && has_intent t && is_expired env t)
          (λ t. record (unleased env unknown t) { error_text = unknown_text })
          (λ t h _ mine. ground (arith, h mine)) (λ t. refl))
        λ _ _.
          keeps-bind
            (keeps-update_tasks env sweep_timeout k _ (unleased env timed_out)
              (λ t h hit mine. ground (arith, h mine)) (λ t. refl))
            λ _ _. keeps-return _ tt

  pub keeps-sweep_timeouts : Keeps (Held i) (sweep_timeouts env) Any
  unfolding sweep_timeouts
  keeps-sweep_timeouts = keeps-transact env others (sweep_tx env) keeps-sweep_tx

  pub keeps-recover : Keeps (Held i) (recover env) Any
  unfolding recover unleased
  keeps-recover =
      keeps-bind
        (keeps-update_tasks env recover_requeue 0 (λ t. is_lapsed env t && not (has_intent t))
          (unleased env queued) (λ t h hit mine. ground (arith, h mine)) (λ t. refl))
        λ _ _. keeps-bind (keeps-pause env after_read (others after_read)) λ _ _.
          keeps-bind
            (keeps-update_tasks env recover_unknown 0 _ _
              (λ t h _ mine. in_doubt-unknown env t (h mine)) (λ t. refl))
            λ _ _. keeps-return _ tt

  pub keeps-renew_lease :
      (id owner : String) (lease : ℤ) → Keeps (Held i) (renew_lease env id owner lease) Any
  unfolding renew_lease
  keeps-renew_lease id owner lease =
      keeps-bind (keeps-update_tasks env _ 0 _ _ (λ t h _ mine. h mine) (λ t. refl))
        λ _ _. keeps-return _ tt

  keeps-leave_unknown :
      (k : ℕ) (id : String) (old new : Task) (during : String)
      → HeldRow i old
      → (old.id == id) ≡ true
      → (in_doubt old ≡ true → in_doubt new ≡ true)
      → Keeps (Held i) (leave_unknown env k id old new during) Any
  unfolding leave_unknown
  keeps-leave_unknown k id old new during held same still =
      keeps-bind (keeps-update_where env k id old new _ held same still)
        λ _ _. keeps-weaken (λ _ _. tt) (keeps-fail_if _ _)

  keeps-confirm_tx :
      (id actor result : String) (usage : ℤ) (k : ℕ)
      → Keeps (Held i) (confirm_tx env id actor result usage k) Any
  unfolding confirm_tx
  keeps-confirm_tx id actor result usage k = keeps-bind (keeps-get env k id) λ t h.
      keeps-bind (keeps-fail_if _ _) λ _ _.
        keeps-bind
          (keeps-leave_unknown k id t (confirmed env result usage t) _ h.0 h.1
            (in_doubt-confirmed env result usage t))
          λ _ _. keeps-insert_task_audit_on env k (confirmed env result usage t) _ actor usage

  pub keeps-confirm_unknown_as :
      (id actor result : String) (usage : ℤ)
      → Keeps (Held i) (confirm_unknown_as env id actor result usage) Any
  unfolding confirm_unknown_as
  keeps-confirm_unknown_as id actor result usage = keeps-bind (keeps-fail_if _ _) λ _ _.
      keeps-bind (keeps-fail_if _ _) λ _ _.
        keeps-bind (keeps-transact env others _ (keeps-confirm_tx id actor result usage))
          λ _ _. keeps-weaken (λ _ _. tt) (keeps-get env 0 id)

  keeps-write_intent :
      (id : String) (version : ℕ) (old new : Task) (during : String)
      → HeldRow i old
      → (old.id == id) ≡ true
      → (in_doubt old ≡ true → in_doubt new ≡ true)
      → Keeps (Held i) (write_intent env id version new during) Any
  unfolding write_intent
  keeps-write_intent id version old new during held same still =
      keeps-bind (keeps-pause env after_read (others after_read)) λ _ _.
        keeps-bind (keeps-update_where env 0 id old new _ held same still)
          λ _ _. keeps-bind (keeps-fail_if _ _) λ _ _. keeps-weaken (λ _ _. tt) (keeps-get env 1 id)

  module _ (nonce : is_empty (env.new_id for_nonce 0) ≡ false) where
    pub keeps-reserve :
        (id : String) (version : ℕ) (amount : ℤ)
        → Keeps (Held i) (reserve env id version amount) Any
    unfolding reserve
    keeps-reserve id version amount = keeps-bind (keeps-get env 0 id) λ t h.
        keeps-bind (keeps-fail_if _ _) λ _ _. keeps-bind (keeps-fail_if _ _) λ _ _.
          keeps-bind (keeps-fail_if _ _) λ _ _.
            keeps-if (ltb_ℤ (pos 0) t.reserved_tokens) (λ _. keeps-return t tt)
              λ _. keeps-bind (keeps-fail_if _ _) λ _ _. keeps-bind (keeps-fail_if _ _) λ _ _.
                keeps-write_intent id version t (reserved env amount t) _ h.0 h.1
                  (in_doubt-reserved env amount t nonce)

    pub keeps-record_intent :
        (id : String) (version : ℕ) → Keeps (Held i) (record_intent env id version) Any
    unfolding record_intent
    keeps-record_intent id version = keeps-bind (keeps-get env 0 id) λ t h.
        keeps-bind (keeps-fail_if _ _) λ _ _. keeps-bind (keeps-fail_if _ _) λ _ _.
          keeps-bind (keeps-fail_if _ _) λ _ _.
            keeps-write_intent id version t (intended env t) _ h.0 h.1
              (in_doubt-intended env t nonce)
