-- ===== src/Tasks/Tests.antt =====
-- Runs of the task store on small tables.
use Prim.Native.String.{String}
use Prim.Native.String
use gin_bear.Base.{◌≡◌, refl, eqb, if◌then◌else◌, true, false, none, some, [], ◌∷◌, any, arith}
use gin_bear.Base.Int.{pos, ltb_ℤ, leb_ℤ, eqb_ℤ, ◌+ℤ◌, ◌-ℤ◌, add64, sub64, wrap}
use gin_bear.Base.Text.{is_blank, trim_space}
use gin_bear.Tasks.Types.{
  Task, Approval, Db, write, readonly, running, queued, waiting, after_read, Env, Outcome, external,
  Site, next_version, is_unknown,
}
use gin_bear.Tasks.Sql.{
  ok, ◌>>=◌, fail_if, raise, map_error, statement, pause, or_no_rows, select_tasks,
  select_approvals, update_tasks, update_approvals, get, set_columns, update_where,
  insert_task_audit_on, audit_row, transact_once, transact_from, transact, hash_args,
}
use gin_bear.Tasks.Approve.{approve, approve_tx, check_approval}
use gin_bear.Tasks.Claim.{eligible, oldest, lease_to, claim_cas, candidate, claim_from, claim}
use gin_bear.Tasks.Complete.{
  complete, settled, settle_error, settle_status, charge, count_attempt, stamp, cancel,
  cancel_round, cancelled,
}
use gin_bear.Tasks.Calls.{claims, completes, cancels, recovers, sweeps, run_call, run_calls}
use gin_bear.Tasks.Approve.Binding.{Approved, approve-Approved, approve_once}
use gin_bear.Tasks.Atomic.{Ends, transact-Ends}
use gin_bear.Tasks.Fencing.{fits, Untouched, complete_fenced, reserve_fenced}
use gin_bear.Tasks.Race.{Later, at_once, after, row, no_rows_left, kept, bumped, claim_cas_race}
use gin_bear.Tasks.Intent.{reserve, reserved}
use gin_bear.Tasks.Reconcile.{confirmed, refunded}
use gin_bear.Tasks.Accounts.{
  HasFunds, holdings, Charged, by_complete, settled-Charged, unknown_charged_once,
}
use gin_bear.Tasks.Blind.{Held}
use gin_bear.Tasks.Blind.History.{Sound, run_calls-Held}

abbrev a_write : Task
a_write = record {
  id = "t1";
  tenant_id = "acme";
  owner = "ann";
  idempotency_key = "k1";
  kind = write;
  tool = "pay";
  args = "{}";
  args_hash = "h:{}";
  policy_version = "p1";
  status = running;
  version = 3;
  exec_nonce = "n1";
  reserved_tokens = pos 20;
  lease_owner = "w1";
  lease_expires = pos 90;
  budget_tokens = pos 100;
  approval_id = "a1";
  result = "";
  error_text = "";
  attempts = pos 0;
  max_attempts = pos 3;
  expires_at = pos 0;
  created_at = pos 10;
  updated_at = pos 10;
}

abbrev a_read : Task
a_read = record a_write {
  id = "t2";
  idempotency_key = "k2";
  kind = readonly;
  status = queued;
  exec_nonce = "";
  lease_owner = "";
  lease_expires = pos 0;
  approval_id = "";
}

abbrev two_tasks : Db
two_tasks = record { tasks = a_write ∷ a_read ∷ []; approvals = []; audits = [] }

abbrev quiet : Env
quiet = record {
  policy_version = "p1";
  now = pos 100;
  unix_after = λ d. pos 160;
  sha256_hex = λ s. String.◌++◌ "h:" s;
  new_id = λ p k. "n2";
  fault = λ site k. none;
  unique_text = "UNIQUE constraint failed";
  between = λ q d. d;
  canceled_at = λ k. none;
  before_claim = none;
  before_execute = none;
  before_store = none;
  before_approval_commit = none;
}

quiet-Sound : Sound "t1" quiet
quiet-Sound = record { others = λ q d h. h; nonce = refl }

-- Another instance claims whatever it can at every pause.
abbrev busy : Env
busy = record quiet { between = λ q d. run_calls ((quiet, claims "w2" (pos 60)) ∷ []) d }

busy-Sound : Sound "t1" busy
busy-Sound = record {
  others = λ q d h. run_calls-Held "t1" _ d ((quiet-Sound, tt), tt) h;
  nonce = refl;
}

two_tasks-Held : Held "t1" two_tasks
two_tasks-Held = record { each = ((λ h. refl), ((λ h. absurd (cc)), tt)); there = refl }

abbrev crashed : Outcome
crashed = record {
  result = "";
  usage = pos 5;
  retryable = true;
  error = some (external false "connection reset");
}

run_calls-Held_example : Held "t1" (
    run_calls
      ((busy, completes "t1" 3 crashed)
        ∷ (busy, sweeps)
        ∷ (busy, recovers)
        ∷ (busy, cancels 2 "t1")
        ∷ [])
      two_tasks)
run_calls-Held_example =
    run_calls-Held "t1"
      ((busy, completes "t1" 3 crashed)
        ∷ (busy, sweeps)
        ∷ (busy, recovers)
        ∷ (busy, cancels 2 "t1")
        ∷ [])
      two_tasks ((busy-Sound, tt), ((busy-Sound, tt), ((busy-Sound, tt), ((busy-Sound, tt), tt))))
      two_tasks-Held

claimed_read : (claim quiet "w1" (pos 60) two_tasks).1 ≡ ok (lease_to quiet "w1" (pos 60) a_read)
unfolding claim claim_from candidate eligible oldest claim_cas ◌>>=◌ statement fail_if raise pause
    get select_tasks update_tasks or_no_rows lease_to ltb_ℤ leb_ℤ eqb_ℤ next_version
claimed_read = refl

abbrev a_waiting : Task
a_waiting = record a_write {
  status = waiting;
  exec_nonce = "";
  lease_owner = "";
  lease_expires = pos 0;
}

abbrev an_approval : Approval
an_approval = record {
  id = "a1";
  tenant_id = "acme";
  operator = "";
  tool = "pay";
  args_hash = "h:{}";
  policy_version = "p1";
  expires_at = pos 500;
  consumed = false;
  consumed_by = "";
  created_at = pos 10;
}

abbrev one_waiting : Db
one_waiting = record { tasks = a_waiting ∷ []; approvals = an_approval ∷ []; audits = [] }

abbrev approved_task : Task
approved_task = record a_waiting { status = queued; updated_at = pos 100 }

abbrev one_approved : Db
one_approved = record {
  tasks = approved_task ∷ [];
  approvals = record an_approval { operator = "bob"; consumed = true; consumed_by = "bob" } ∷ [];
  audits = audit_row quiet 1 approved_task "approve" "bob" (pos 0) ∷ [];
}

approved : approve quiet "a1" "bob" "{}" one_waiting ≡ (one_approved, ok approved_task)
unfolding approve approve_tx check_approval transact transact_from transact_once ◌>>=◌ statement
    fail_if raise pause map_error get select_tasks select_approvals update_tasks update_approvals
    update_where set_columns insert_task_audit_on or_no_rows hash_args trim_space is_blank ltb_ℤ
    audit_row
approved = refl

approve-Approved_example : Approved quiet "a1" "bob" "{}" one_waiting one_approved
approve-Approved_example = approve-Approved quiet "a1" "bob" "{}" one_waiting approved

-- The first approval commits between the read and the transaction of this call.
abbrev forestalled : Env
forestalled = record quiet { between = λ q d. one_approved }

approve_once_example :
    ¬ (approve forestalled "a1" "eve" "{}" one_waiting ≡ (one_approved, ok approved_task))
approve_once_example =
    approve_once quiet forestalled "a1" "bob" "{}" "eve" "{}" one_waiting one_waiting approved
      (λ h. h) (λ k d h. refl)

-- The first commit fails on a lock; another instance commits before the next attempt.
abbrev contended : Env
contended = record busy {
  fault = λ site k. elim site [
    | Site.tx_commit ↦ if eqb k 1 then some (external false "database is locked") else none
    | _ ↦ none
  ];
}

transact-Ends_example :
    Ends contended
      (approve_tx contended "a1" "bob")
      one_waiting
      (transact contended (approve_tx contended "a1" "bob") one_waiting)
transact-Ends_example = transact-Ends contended (approve_tx contended "a1" "bob") one_waiting

-- An operator cancels the task between the worker's read and its write.
abbrev overtaken : Env
overtaken = record quiet { between = λ q d. run_calls ((quiet, cancels 2 "t1") ∷ []) d }

fenced : any (fits "t1" 3) (overtaken.between after_read two_tasks).tasks ≡ false
unfolding run_calls run_call cancel cancel_round cancelled ◌>>=◌ statement raise pause get
    select_tasks update_tasks update_where set_columns or_no_rows stamp next_version
fenced = refl

complete_fenced_example :
    Untouched overtaken two_tasks (complete overtaken "t1" 3 crashed two_tasks).0
complete_fenced_example = complete_fenced overtaken "t1" 3 crashed two_tasks (λ site k. refl) fenced

abbrev unreserved : Db
unreserved = record two_tasks { tasks = record a_write { reserved_tokens = pos 0 } ∷ a_read ∷ [] }

fenced_unreserved : any (fits "t1" 3) (overtaken.between after_read unreserved).tasks ≡ false
unfolding run_calls run_call cancel cancel_round cancelled ◌>>=◌ statement raise pause get
    select_tasks update_tasks update_where set_columns or_no_rows stamp next_version
fenced_unreserved = refl

reserve_fenced_example :
    Untouched overtaken unreserved (reserve overtaken "t1" 3 (pos 7) unreserved).0
reserve_fenced_example =
    reserve_fenced overtaken "t1" 3 (pos 7) unreserved (λ site k. refl) fenced_unreserved

abbrev claimed_tasks : Db
claimed_tasks = record two_tasks { tasks = a_write ∷ lease_to quiet "w1" (pos 60) a_read ∷ [] }

first_claim :
    claim_cas quiet 0 a_read "w1" (pos 60) two_tasks
    ≡ (claimed_tasks, ok (some (lease_to quiet "w1" (pos 60) a_read)))
unfolding claim_cas ◌>>=◌ statement get select_tasks update_tasks or_no_rows lease_to next_version
first_claim = refl

-- The winner has failed, and the row is back in the queue.
abbrev requeued_read : Task
requeued_read = record (lease_to quiet "w1" (pos 60) a_read) {
  status = queued;
  lease_owner = "";
  lease_expires = pos 0;
  version = 5;
}

abbrev requeued_tasks : Db
requeued_tasks = record two_tasks { tasks = a_write ∷ requeued_read ∷ [] }

requeued_later : Later "t2" claimed_tasks 1 requeued_tasks
unfolding lease_to next_version
requeued_later = after at_once (row (kept refl refl) (row (bumped refl refl) no_rows_left))

claim_cas_race_example :
    claim_cas quiet 1 a_read "w2" (pos 30) requeued_tasks ≡ (requeued_tasks, ok none)
claim_cas_race_example =
    claim_cas_race quiet quiet 0 1 a_read "w1" "w2" (pos 60) (pos 30) two_tasks (omega arith) refl
      first_claim requeued_later (omega arith) λ site k. refl

a_write-HasFunds : HasFunds a_write
a_write-HasFunds = record {
  budget_small = omega arith;
  reserved_small = omega arith;
  reserved_nonneg = omega arith;
}

settled-Charged_example : Charged (pos 5) a_write (settled quiet crashed a_write)
settled-Charged_example = settled-Charged quiet crashed a_write (omega arith) a_write-HasFunds

abbrev a_reserved : Task
a_reserved = reserved quiet (pos 7) a_write

a_reserved-HasFunds : HasFunds a_reserved
unfolding reserved sub64 wrap ◌-ℤ◌ stamp add64 ◌+ℤ◌
a_reserved-HasFunds = record {
  budget_small = omega arith;
  reserved_small = omega arith;
  reserved_nonneg = omega arith;
}

stays_unknown : is_unknown (settled quiet crashed a_reserved).status ≡ true
unfolding reserved settled settle_status settle_error charge count_attempt stamp
stays_unknown = refl

unknown_charged_once_example :
    (holdings (confirmed quiet "paid" (pos 6) (settled quiet crashed a_reserved))
      ≡ holdings a_write -ℤ pos 6)
    × ((confirmed quiet "paid" (pos 6) (settled quiet crashed a_reserved)).reserved_tokens ≡ pos 0)
    × (holdings (refunded (settled quiet crashed a_reserved)) ≡ holdings a_write)
unknown_charged_once_example =
    unknown_charged_once quiet quiet (pos 7) (pos 6) "paid" a_write
      (settled quiet crashed a_reserved) a_write-HasFunds (omega arith) a_reserved-HasFunds
      (omega arith) (by_complete quiet crashed (omega arith) stays_unknown)
