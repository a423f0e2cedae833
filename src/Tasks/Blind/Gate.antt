-- ===== src/Tasks/Blind/Gate.antt =====
-- The row in doubt under submission, approval, claims and the worker (tasks.go).
use Prim.Native.String.{String}
use text.Mathlib.Text.{◌==◌}
use text.Mathlib.TextEquality.{eq_iff}
use gin_bear.Base.{
  ℕ, zero, suc, ◌+◌, ◌≡◌, refl, true, false, Bool-cases, inl, inr, Option, none, some, List, [],
  ◌∷◌, ◌++◌, arith, eqb, ◌&&◌, not,
}
use gin_bear.Base.Int.{ℤ}
use gin_bear.Tasks.Types.{
  Task, Approval, Db, Err, Env, Pause, is_write, is_no_rows, is_unique_violation, is_queued,
  is_waiting, queued, after_read, in_loop, no_rows, create_approval, select_candidate,
  select_approved,
}
use gin_bear.Tasks.Sql.{or_no_rows}
use gin_bear.Tasks.Submit.{
  submit, submit_new, submit_write, winner_or, winner_if_unique, insert, prepared, default_attempts,
}
use gin_bear.Tasks.Approve.{approve, approve_tx, check_approval}
use gin_bear.Tasks.Claim.{claim, claim_from, claim_cas, candidate, lease_to, eligible, oldest}
use gin_bear.Tasks.Keeps.{
  Keeps, Any, keeps-bind, keeps-return, keeps-fail, keeps-fail_if, keeps-if, keeps-raise,
  keeps-map_error, keeps-handle, keeps-pause, keeps-transact, keeps-weaken, keeps-statement, done,
  stopped, Leaves,
}
use gin_bear.Tasks.Blind.{HeldRow, Held}
use gin_bear.Tasks.Blind.Steps.{
  keeps-select_tasks, keeps-select_approvals, keeps-get, keeps-update_approvals, keeps-update_tasks,
  keeps-update_where, keeps-insert_task_row, keeps-insert_approval_on, keeps-insert_task_audit_on,
  keeps-get_by_tenant_key,
}
use gin_bear.Tasks.Blind.Calls.{keeps-hook}

module _ {i : String} (env : Env)
    (others : (q : Pause) (d : Db) → Held i d → Held i (env.between q d)) where
  keeps-winner_or : (t : Task) (e : Err) → Keeps (Held i) (winner_or env t e) Any
  unfolding winner_or
  keeps-winner_or t e =
      keeps-handle (keeps-get_by_tenant_key env 1 _ _) (λ _. keeps-fail e) λ u _. keeps-return u tt

  keeps-submit_write : (t : Task) (k : ℕ) → Keeps (Held i) (submit_write env t k) Any
  unfolding submit_write
  keeps-submit_write t k =
      keeps-bind (keeps-map_error create_approval (keeps-insert_approval_on env k _)) λ _ _.
        keeps-bind (keeps-insert_task_row env k _) λ _ _. keeps-insert_task_audit_on env k _ _ _ _

  keeps-submit_new : (t : Task) → Keeps (Held i) (submit_new env t) Any
  unfolding submit_new insert winner_if_unique
  keeps-submit_new t =
      keeps-if (is_write t.kind)
        (λ _.
          keeps-handle (keeps-transact env others _ (keeps-submit_write t))
            (λ e. keeps-if (is_unique_violation e) (λ _. keeps-winner_or t e) λ _. keeps-fail e)
            λ _ _. keeps-weaken (λ _ _. tt) (keeps-get env 2 t.id))
        λ _.
          keeps-handle (keeps-map_error _ (keeps-insert_task_row env 0 t)) (keeps-winner_or t)
            λ _ _. keeps-weaken (λ _ _. tt) (keeps-get env 2 t.id)

  pub keeps-submit : (t : Task) → Keeps (Held i) (submit env t) Any
  unfolding submit
  keeps-submit t = keeps-bind (keeps-fail_if _ _) λ _ _. keeps-bind (keeps-fail_if _ _) λ _ _.
      keeps-handle (keeps-get_by_tenant_key env 0 _ _)
        (λ e.
          keeps-if (is_no_rows e)
            (λ _.
              keeps-bind (keeps-pause env after_read (others after_read))
                λ _ _. keeps-submit_new (prepared env (default_attempts t)))
            λ _. keeps-fail e)
        λ u _. keeps-return u tt

  keeps-approve_tx :
      (approval_id operator : String) (k : ℕ)
      → Keeps (Held i) (approve_tx env approval_id operator k) Any
  unfolding approve_tx
  keeps-approve_tx approval_id operator k = keeps-bind (keeps-update_approvals env _ k _ _) λ _ _.
      keeps-bind (keeps-fail_if _ _) λ _ _.
        keeps-bind (keeps-map_error _ (keeps-select_tasks env _ k _)) λ found _.
          keeps-bind (keeps-get env k found.id) λ t h.
            keeps-bind (keeps-fail_if (not (is_waiting t.status)) _) λ _ waits.
              keeps-bind (keeps-fail_if _ _) λ _ _. keeps-bind (keeps-hook env others _ t) λ _ _.
                keeps-bind
                  (keeps-update_where env k found.id t
                    (record t { status = queued; updated_at = env.now }) _ h.0 h.1
                    (λ doubt. ground arith))
                  λ _ _. keeps-bind (keeps-fail_if _ _) λ _ _.
                    keeps-insert_task_audit_on env k
                      (record t { status = queued; updated_at = env.now }) _ _ _

  keeps-check_approval :
      (a : Approval) (args : String) → Keeps (Held i) (check_approval env a args) Any
  unfolding check_approval
  keeps-check_approval a args = keeps-bind (keeps-fail_if _ _) λ _ _.
      keeps-bind (keeps-fail_if _ _)
        λ _ _. keeps-bind (keeps-fail_if _ _) λ _ _. keeps-weaken (λ _ _. tt) (keeps-fail_if _ _)

  pub keeps-approve :
      (approval_id operator args : String)
      → Keeps (Held i) (approve env approval_id operator args) Any
  unfolding approve
  keeps-approve approval_id operator args = keeps-bind (keeps-fail_if _ _) λ _ _.
      keeps-bind (keeps-map_error _ (keeps-select_approvals env _ 0 _)) λ a _.
        keeps-bind (keeps-check_approval a args) λ _ _.
          keeps-bind (keeps-pause env after_read (others after_read)) λ _ _.
            keeps-bind (keeps-transact env others _ (keeps-approve_tx approval_id operator)) λ _ _.
              keeps-bind (keeps-select_tasks env select_approved 0 _)
                λ t _. keeps-weaken (λ _ _. tt) (keeps-get env 0 t.id)

  keeps-candidate : (k : ℕ) (excluded : List String) → Keeps (Held i) (candidate env k excluded) Any
  unfolding candidate
  keeps-candidate k excluded = keeps-statement env select_candidate k _ λ db h.
      elim (oldest (eligible env excluded) db.tasks)
        as (λ o. Leaves (Held i) (or_no_rows db o) Any) [
          | none ↦ unfold or_no_rows in stopped h
          | some t ↦ unfold or_no_rows in done h tt
        ]

  -- A claim that was won is of another row.
  abbrev IsOther : Option Task → Type 0
  IsOther none = Unit
  IsOther (some t) = (t.id == i) ≡ false

  other_row :
      (t u : Task) (id : String) (version : ℕ)
      → HeldRow i t
      → (t.id == id && (eqb t.version version && is_queued t.status)) ≡ true
      → (u.id == id) ≡ true
      → (u.id == i) ≡ false
  other_row t u id version held hit same = elim (Bool-cases (t.id == i)) [
    | inl mine ↦ absurd (ground (arith, held mine))
    | inr other ↦ ground (arith, eq_iff t.id id, eq_iff u.id id, eq_iff u.id i, eq_iff t.id i)
  ]

  keeps-claim_cas :
      (k : ℕ) (t : Task) (owner : String) (lease : ℤ)
      → Keeps (Held i) (claim_cas env k t owner lease) IsOther
  unfolding claim_cas lease_to
  keeps-claim_cas k t owner lease =
      keeps-bind
        (keeps-update_tasks env _ k _ (lease_to env owner lease)
          (λ u h hit mine. absurd (ground (arith, h mine))) (λ u. refl))
        λ n hit.
          keeps-if (eqb n 1)
            (λ one. keeps-bind (keeps-get env k t.id) λ u h.
              keeps-return (some u) (
                let (row, held, fits) = hit.row one in
                other_row row u t.id t.version held fits h.1))
            λ _. keeps-return none tt

  keeps-claim_from :
      (left k : ℕ) (excluded : List String) (owner : String) (lease : ℤ)
      → Keeps (Held i) (claim_from env left k excluded owner lease) λ t. (t.id == i) ≡ false
  unfolding claim_from
  keeps-claim_from zero k excluded owner lease = keeps-fail no_rows
  keeps-claim_from (suc left) k excluded owner lease =
      keeps-bind (keeps-candidate k excluded) λ t _. keeps-bind (keeps-fail_if _ _) λ _ _.
        keeps-bind (keeps-pause env (in_loop k) (others (in_loop k))) λ _ _.
          keeps-bind (keeps-claim_cas k t owner lease) (elim [
            | none ↦ λ _. keeps-claim_from left (k + 1) (excluded ++ t.id ∷ []) owner lease
            | some won ↦ λ other. keeps-return won other
          ])

  -- A claim keeps the row in doubt and returns another.
  pub keeps-claim :
      (owner : String) (lease : ℤ) → Keeps (Held i) (claim env owner lease) λ t. (t.id == i) ≡ false
  unfolding claim
  keeps-claim owner lease = keeps-bind (keeps-raise _) λ _ _. keeps-claim_from 8 0 [] owner lease
