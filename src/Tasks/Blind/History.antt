-- ===== src/Tasks/Blind/History.antt =====
-- The row in doubt over sequences of the calls of tasks.go.
use Prim.Native.String.{String}
use text.Mathlib.Text.{◌==◌}
use text.Mathlib.TextEquality.{eq_iff}
use gin_bear.Base.{ℕ, ◌≡◌, refl, true, false, none, some, List, [], ◌∷◌, arith, eqb, ◌&&◌, All}
use gin_bear.Base.Int.{pos, ltb_ℤ}
use gin_bear.Base.Text.{is_empty}
use gin_bear.Tasks.Types.{
  Task, Db, Env, Pause, is_write, for_nonce, while_executing, create_approval, is_unknown,
}
use gin_bear.Tasks.Sql.{M}
use gin_bear.Tasks.Reconcile.{requeue_unknown_as, requeue_tx, regated, refunded, leave_unknown}
use gin_bear.Tasks.Complete.{stamp}
use gin_bear.Tasks.Worker.{
  Worker, run_once, run_claimed, prepare_write, check_write_approval, authorize, execute,
  failed_with,
}
use gin_bear.Tasks.Calls.{
  Call, submits, approves, claims, completes, cancels, sweeps, recovers, reserves, intends, renews,
  confirms, requeues, works, run_call, run_calls, drop_value,
}
use gin_bear.Tasks.Keeps.{
  Keeps, Any, keeps-bind, keeps-return, keeps-fail_if, keeps-if, keeps-raise, keeps-map_error,
  keeps-handle, keeps-pause, keeps-transact, keeps-weaken,
}
use gin_bear.Tasks.Blind.{Held}
use gin_bear.Tasks.Sql.{update_where, set_columns}
use gin_bear.Tasks.Blind.Steps.{
  keeps-get, keeps-update_tasks, keeps-insert_approval_on, keeps-insert_task_audit_on,
  keeps-select_approvals,
}
use gin_bear.Tasks.Blind.Calls.{
  keeps-hook, keeps-complete, keeps-cancel, keeps-sweep_timeouts, keeps-recover, keeps-renew_lease,
  keeps-confirm_unknown_as, keeps-reserve, keeps-record_intent,
}
use gin_bear.Tasks.Blind.Gate.{keeps-submit, keeps-approve, keeps-claim}

-- What a call takes from outside respects the row: the other instances keep it in doubt, and new
-- identifiers are not empty.
pub record Sound (i : String) (env : Env) : Type 0 where
  pub others : (q : Pause) (d : Db) → Held i d → Held i (env.between q d)
  pub nonce : is_empty (env.new_id for_nonce 0) ≡ false

-- An operator does not requeue this row.
abbrev pub Allowed : String → Call → Type 0
Allowed i (requeues id actor) = (id == i) ≡ false
Allowed i (works checking storing w) = Sound i checking × Sound i storing
Allowed i _ = Unit

module _ {i : String} (env : Env) (sound : Sound i env) where
  keeps-regated : (k : ℕ) (t : Task) → Keeps (Held i) (regated env k t) Any
  unfolding regated
  keeps-regated k t =
      keeps-if (is_write t.kind)
        (λ _.
          keeps-bind (keeps-map_error create_approval (keeps-insert_approval_on env k _))
            λ _ _. keeps-return _ tt)
        λ _. keeps-return _ tt

  keeps-leave_other :
      (k : ℕ) (id : String) (old new : Task) (during : String)
      → (id == i) ≡ false
      → Keeps (Held i) (leave_unknown env k id old new during) Any
  unfolding leave_unknown update_where set_columns
  keeps-leave_other k id old new during other =
      keeps-bind
        (keeps-bind
          (keeps-update_tasks env _ k
            (λ t. t.id == id && (is_unknown t.status && eqb t.version old.version))
            (set_columns new)
            (λ t h hit mine. absurd (ground (arith, eq_iff t.id id, eq_iff t.id i, eq_iff id i)))
            (λ t. refl))
          λ _ _. keeps-return {R = Any} _ tt)
        λ _ _. keeps-weaken (λ _ _. tt) (keeps-fail_if _ _)

  keeps-requeue_tx :
      (id actor : String) (k : ℕ)
      → (id == i) ≡ false
      → Keeps (Held i) (requeue_tx env id actor k) Any
  unfolding requeue_tx
  keeps-requeue_tx id actor k other = keeps-bind (keeps-get env k id) λ t _.
      keeps-bind (keeps-fail_if _ _) λ _ _. keeps-bind (keeps-regated k (refunded t)) λ gated _.
        keeps-bind (keeps-leave_other k id t (stamp env gated) _ other)
          λ _ _. keeps-insert_task_audit_on env k (stamp env gated) _ actor (pos 0)

  keeps-requeue_unknown_as :
      (id actor : String) → (id == i) ≡ false → Keeps (Held i) (requeue_unknown_as env id actor) Any
  unfolding requeue_unknown_as
  keeps-requeue_unknown_as id actor other = keeps-bind (keeps-fail_if _ _) λ _ _.
      keeps-bind (keeps-transact env sound.others _ (λ k. keeps-requeue_tx id actor k other))
        λ _ _. keeps-weaken (λ _ _. tt) (keeps-get env 0 id)

  keeps-authorize : (w : Worker) (t : Task) → Keeps (Held i) (authorize w.write_authorize t) Any
  keeps-authorize w t = elim w.write_authorize as (λ o. Keeps (Held i) (authorize o t) Any) [
    | none ↦ keeps-raise _
    | some check ↦ keeps-raise (check t)
  ]

  keeps-check_write_approval : (t : Task) → Keeps (Held i) (check_write_approval env t) Any
  unfolding check_write_approval
  keeps-check_write_approval t = keeps-bind (keeps-fail_if _ _) λ _ _.
      keeps-bind (keeps-map_error _ (keeps-select_approvals env _ 0 _)) λ a _.
        keeps-bind (keeps-fail_if _ _)
          λ _ _. keeps-bind (keeps-fail_if _ _) λ _ _. keeps-weaken (λ _ _. tt) (keeps-fail_if _ _)

  keeps-prepare_write : (w : Worker) (t : Task) → Keeps (Held i) (prepare_write env w t) Any
  unfolding prepare_write
  keeps-prepare_write w t = keeps-bind (keeps-check_write_approval t) λ _ _.
      keeps-bind (keeps-authorize w t) λ _ _.
        keeps-if (ltb_ℤ (pos 0) w.write_reserve_tokens)
          (λ _. keeps-reserve env sound.others sound.nonce t.id t.version w.write_reserve_tokens)
          λ _. keeps-record_intent env sound.others sound.nonce t.id t.version

  keeps-execute : (w : Worker) (t : Task) → Keeps (Held i) (execute env w t) Any
  unfolding execute
  keeps-execute w t =
      keeps-bind (keeps-pause env while_executing (sound.others while_executing))
        λ _ _. keeps-complete env sound.others t.id t.version (w.executor t)

module _ {i : String} (claiming checking storing : Env) (s : Sound i claiming)
    (c : Sound i checking) (d : Sound i storing) where
  keeps-run_claimed :
      (w : Worker) (t : Task) → Keeps (Held i) (run_claimed checking storing w t) Any
  unfolding run_claimed
  keeps-run_claimed w t =
      keeps-handle (keeps-hook checking c.others checking.before_execute t)
        (λ e. keeps-complete storing d.others t.id t.version (failed_with e true))
        λ _ _.
          keeps-if (is_write t.kind)
            (λ _.
              keeps-handle (keeps-prepare_write checking c w t)
                (λ e. keeps-complete storing d.others t.id t.version (failed_with e false))
                λ u _. keeps-execute storing d w u)
            λ _. keeps-execute storing d w t

  keeps-run_once : (w : Worker) → Keeps (Held i) (run_once claiming checking storing w) Any
  unfolding run_once
  keeps-run_once w =
      keeps-bind (keeps-claim claiming s.others w.owner _) λ t _. keeps-run_claimed w t

keeps-drop :
    {i : String} {A : Type 0} {m : M A} {R : A → Type 0}
    → Keeps (Held i) m R
    → Keeps (Held i) (drop_value m) Any
keeps-drop k = keeps-bind k λ _ _. keeps-return tt tt

keeps-run_call :
    {i : String} (env : Env) (c : Call)
    → Sound i env
    → Allowed i c
    → Keeps (Held i) (run_call env c) Any
unfolding run_call
keeps-run_call env (submits t) s a = keeps-drop (keeps-submit env s.others t)
keeps-run_call env (approves id operator args) s a =
    keeps-drop (keeps-approve env s.others id operator args)
keeps-run_call env (claims owner lease) s a = keeps-drop (keeps-claim env s.others owner lease)
keeps-run_call env (completes id version o) s a =
    keeps-drop (keeps-complete env s.others id version o)
keeps-run_call env (cancels rounds id) s a = keeps-drop (keeps-cancel env s.others rounds 0 id)
keeps-run_call env sweeps s a = keeps-drop (keeps-sweep_timeouts env s.others)
keeps-run_call env recovers s a = keeps-drop (keeps-recover env s.others)
keeps-run_call env (reserves id version amount) s a =
    keeps-drop (keeps-reserve env s.others s.nonce id version amount)
keeps-run_call env (intends id version) s a =
    keeps-drop (keeps-record_intent env s.others s.nonce id version)
keeps-run_call env (renews id owner lease) s a =
    keeps-drop (keeps-renew_lease env s.others id owner lease)
keeps-run_call env (confirms id actor result usage) s a =
    keeps-drop (keeps-confirm_unknown_as env s.others id actor result usage)
keeps-run_call env (requeues id actor) s a = keeps-drop (keeps-requeue_unknown_as env s id actor a)
keeps-run_call env (works checking storing w) s (c, d) =
    keeps-drop (keeps-run_once env checking storing s c d w)

-- A write with a recorded intent that runs, is unknown or has succeeded stays one of these, with its
-- intent, through every sequence of calls by any instances that requeues other rows only: it is not
-- queued again, failed, canceled or timed out. The environments respect the row: what other
-- instances commit in the middle of a call does, and a new nonce is not empty.
pub run_calls-Held :
    (i : String) (calls : List (Env × Call)) (db : Db)
    → All (λ step. Sound i step.0 × Allowed i step.1) calls
    → Held i db
    → Held i (run_calls calls db)
unfolding run_calls
run_calls-Held i [] db s h = h
run_calls-Held i ((env, c) ∷ rest) db ((s, a), more) h =
    run_calls-Held i rest (run_call env c db).0 more ((keeps-run_call env c s a).state db h)
