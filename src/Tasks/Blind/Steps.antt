-- ===== src/Tasks/Blind/Steps.antt =====
-- The row in doubt under the statements of tasks.go.
use Prim.Native.String.{String}
use text.Mathlib.Text.{◌==◌}
use text.Mathlib.TextEquality.{eq_iff}
use gin_bear.Base.{
  ℕ, ◌≡◌, refl, sym, ◌∙◌, Bool, true, false, Bool-cases, Option-cases, inl, inr, List, [], ◌∷◌,
  ◌++◌, arith, any, ◌&&◌, both, eqb,
}
use gin_bear.Base.Int.{ℤ}
use gin_bear.Tasks.Types.{Task, Approval, Audit, Site, Env, for_audit}
use gin_bear.Tasks.Sql.{
  find, update_tasks, update_approvals, select_tasks, select_approvals, get, get_by_tenant_key,
  set_columns, update_where, insert_task_row, insert_approval_on, insert_task_audit_on, or_no_rows,
  clashes,
}
use gin_bear.Tasks.Rows.{All-update, All-find, All-append, any-update, find_of_count}
use gin_bear.Tasks.Keeps.{
  Keeps, Any, done, stopped, keeps-bind, keeps-return, keeps-statement, keeps-weaken,
}
use gin_bear.Tasks.Blind.{in_doubt, HeldRow, Held}

any-append : (p : Task → Bool) (ts us : List Task) → any p ts ≡ true → any p (ts ++ us) ≡ true
any-append p [] us h = absurd (cc)
any-append p (t ∷ ts) us h = ground (arith, any-append p ts us)

-- A row that is there keeps a new one from its identifier.
other_id :
    (i : String) (new : Task) (ts : List Task)
    → any (λ t. t.id == i) ts ≡ true
    → any (clashes new) ts ≡ false
    → (new.id == i) ≡ false
unfolding clashes
other_id i new [] h k = absurd (cc)
other_id i new (t ∷ ts) h k =
    ground (arith, other_id i new ts, eq_iff t.id i, eq_iff new.id i, eq_iff t.id new.id)

-- A count of one row comes with the row that was hit, as it was before.
pub record Hit (i : String) (p : Task → Bool) (n : ℕ) : Type 0 where
  pub row : eqb n 1 ≡ true → (t : Task) × HeldRow i t × (p t ≡ true)

module _ {i : String} where
  pub keeps-select_tasks :
      (env : Env) (site : Site) (k : ℕ) (p : Task → Bool)
      → Keeps (Held i) (select_tasks env site k p) λ t. HeldRow i t × (p t ≡ true)
  unfolding select_tasks or_no_rows
  keeps-select_tasks env site k p = keeps-statement env site k _ λ db h.
      elim (Option-cases (find p db.tasks)) [
        | inl e ↦ rw (e, or_no_rows) (stopped h)
        | inr (t, e) ↦ rw (e, or_no_rows) (done h (All-find (HeldRow i) p db.tasks e h.each))
      ]

  pub keeps-select_approvals :
      (env : Env) (site : Site) (k : ℕ) (p : Approval → Bool)
      → Keeps (Held i) (select_approvals env site k p) Any
  unfolding select_approvals or_no_rows
  keeps-select_approvals env site k p = keeps-statement env site k _ λ db h.
      elim (Option-cases (find p db.approvals)) [
        | inl e ↦ rw (e, or_no_rows) (stopped h)
        | inr (a, e) ↦ rw (e, or_no_rows) (done h tt)
      ]

  pub keeps-get :
      (env : Env) (k : ℕ) (id : String)
      → Keeps (Held i) (get env k id) λ t. HeldRow i t × ((t.id == id) ≡ true)
  unfolding get
  keeps-get env k id = keeps-select_tasks env _ k _

  pub keeps-update_approvals :
      (env : Env) (site : Site) (k : ℕ) (p : Approval → Bool) (f : Approval → Approval)
      → Keeps (Held i) (update_approvals env site k p f) Any
  unfolding update_approvals
  keeps-update_approvals env site k p f =
      keeps-statement env site k _ λ db h. done (record { each = h.each; there = h.there }) tt

  pub keeps-update_tasks :
      (env : Env) (site : Site) (k : ℕ) (p : Task → Bool) (f : Task → Task)
      → ((t : Task) → HeldRow i t → p t ≡ true → HeldRow i (f t))
      → ((t : Task) → (f t).id ≡ t.id)
      → Keeps (Held i) (update_tasks env site k p f) (Hit i p)
  unfolding update_tasks
  keeps-update_tasks env site k p f keep same = keeps-statement env site k _ λ db h.
      done
        (record {
          each = All-update (HeldRow i) p f db.tasks keep h.each;
          there = any-update (λ t. t.id == i) p f db.tasks (λ t. rw (same t)) ∙ h.there;
        })
        (record {
          row = λ one.
              let (t, found) = find_of_count p db.tasks one in
              let (held, hit) = All-find (HeldRow i) p db.tasks found h.each in (t, held, hit);
        })

  -- A row written over the one that was read stays in doubt if the new columns do.
  pub keeps-update_where :
      (env : Env) (k : ℕ) (id : String) (old new : Task) (rest : Task → Bool)
      → HeldRow i old
      → (old.id == id) ≡ true
      → (in_doubt old ≡ true → in_doubt new ≡ true)
      → Keeps (Held i) (update_where env k new λ t. t.id == id && rest t) Any
  unfolding update_where set_columns
  keeps-update_where env k id old new rest held same still =
      keeps-bind (keeps-update_tasks env _ k _ (set_columns new) rewritten (λ t. refl))
        λ n _. keeps-return _ tt
    where
      rewritten :
          (t : Task) → HeldRow i t → (t.id == id && rest t) ≡ true → HeldRow i (set_columns new t)
      rewritten t h hit mine = still (
          held (
            (eq_iff old.id i).1 (
              (eq_iff old.id id).0 same
              ∙ sym ((eq_iff t.id id).0 (both _ _ hit).0)
              ∙ (eq_iff t.id i).0 mine)))

  pub keeps-insert_task_row :
      (env : Env) (k : ℕ) (new : Task) → Keeps (Held i) (insert_task_row env k new) Any
  unfolding insert_task_row
  keeps-insert_task_row env k new = keeps-statement env _ k _ λ db h.
      elim (Bool-cases (any (clashes new) db.tasks)) [
        | inl clash ↦ rw clash (stopped h)
        | inr free ↦
            let other : (new.id == i) ≡ false = other_id i new db.tasks h.there free in
            rw free (
              done
                (record {
                  each =
                      All-append (HeldRow i) db.tasks (new ∷ []) h.each ((λ mine. absurd (cc)), tt);
                  there = any-append _ db.tasks (new ∷ []) h.there;
                })
                tt)
      ]

  pub keeps-insert_approval_on :
      (env : Env) (k : ℕ) (new : Approval) → Keeps (Held i) (insert_approval_on env k new) Any
  unfolding insert_approval_on
  keeps-insert_approval_on env k new = keeps-statement env _ k _ λ db h.
      elim (Bool-cases (any (λ (a : Approval). a.id == new.id) db.approvals)) [
        | inl clash ↦ rw clash (stopped h)
        | inr free ↦ rw free (done (record { each = h.each; there = h.there }) tt)
      ]

  pub keeps-insert_task_audit_on :
      (env : Env) (k : ℕ) (task : Task) (action actor : String) (usage : ℤ)
      → Keeps (Held i) (insert_task_audit_on env k task action actor usage) Any
  unfolding insert_task_audit_on
  keeps-insert_task_audit_on env k task action actor usage = keeps-statement env _ k _ λ db h.
      elim (Bool-cases (any (λ (a : Audit). a.id == env.new_id for_audit k) db.audits)) [
        | inl clash ↦ rw clash (stopped h)
        | inr free ↦ rw free (done (record { each = h.each; there = h.there }) tt)
      ]

  pub keeps-get_by_tenant_key :
      (env : Env) (k : ℕ) (tenant key : String)
      → Keeps (Held i) (get_by_tenant_key env k tenant key) (HeldRow i)
  unfolding get_by_tenant_key
  keeps-get_by_tenant_key env k tenant key =
      keeps-bind (keeps-select_tasks env _ k _)
        λ t _. keeps-weaken (λ u h. h.0) (keeps-get env k t.id)
