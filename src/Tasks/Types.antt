-- ===== src/Tasks/Types.antt =====
-- The rows of the task store and the environment of one call (tasks.go).
use Prim.Native.String.{String}
use Prim.Native.String
use gin_bear.Base.{ℕ, ◌+◌, ◌%◌, ◌^◌, ◌||◌, Bool, true, false, Option, List, [], ◌∷◌, any}
use gin_bear.Base.Int.{ℤ}
use gin_bear.Base.Text.{contains}

pub data Status : Type 0 where
  queued running waiting succeeded failed canceled timed_out unknown : Status

-- A row holds `readonly` or `write`; `Submit` is handed any text.
pub data Kind : Type 0 where
  readonly write : Kind
  other : String → Kind

pub record Task : Type 0 where
  pub id : String
  pub tenant_id : String
  pub owner : String
  pub idempotency_key : String
  pub kind : Kind
  pub tool : String
  pub args : String
  pub args_hash : String
  pub policy_version : String
  pub status : Status
  pub version : ℕ
  pub exec_nonce : String
  pub reserved_tokens : ℤ
  pub lease_owner : String
  pub lease_expires : ℤ
  pub budget_tokens : ℤ
  pub approval_id : String
  pub result : String
  pub error_text : String
  pub attempts : ℤ
  pub max_attempts : ℤ
  pub expires_at : ℤ
  pub created_at : ℤ
  pub updated_at : ℤ

pub record Approval : Type 0 where
  pub id : String
  pub tenant_id : String
  pub operator : String
  pub tool : String
  pub args_hash : String
  pub policy_version : String
  pub expires_at : ℤ
  pub consumed : Bool
  pub consumed_by : String
  pub created_at : ℤ

-- A row of agent_task_audit.
pub record Audit : Type 0 where
  pub id : String
  pub task_id : String
  pub tenant_id : String
  pub actor : String
  pub action : String
  pub to_status : Status
  pub approval_id : String
  pub usage : ℤ
  pub created_at : ℤ

pub record Db : Type 0 where
  pub tasks : List Task
  pub approvals : List Approval
  pub audits : List Audit

-- The errors that the store returns. `external` is an error made elsewhere (the driver, a hook, the
-- executor) with its text, and with whether `errors.Is` finds ErrUnknownResult in it.
pub data Err : Type 0 where
  no_rows tenant_and_key_required bad_kind operator_required approval_not_found : Err
  already_consumed approval_expired parameters_changed policy_changed no_task_for_approval : Err
  owner_cannot_approve budget_exhausted negative_usage stale_worker : Err
  bad_amount insufficient_budget actor_required : Err
  no_approval approval_gone not_covered no_authorization : Err
  wrong_status : Status → String → Err
  task_changed not_a_write : String → Err
  create_approval duplicate_task : Err → Err
  external : Bool → String → Err

abbrev pub status_text : Status → String
status_text queued = "queued"
status_text running = "running"
status_text waiting = "waiting_approval"
status_text succeeded = "succeeded"
status_text failed = "failed"
status_text canceled = "canceled"
status_text timed_out = "timed_out"
status_text unknown = "unknown"

-- `err.Error()`.
unfoldable pub message : Err → String
message no_rows = "sql: no rows in result set"
message tenant_and_key_required = "tenant and idempotency key are required"
message bad_kind = "task kind must be readonly or write"
message operator_required = "operator is required"
message approval_not_found = "approval not found"
message already_consumed = "approval already consumed"
message approval_expired = "approval expired"
message parameters_changed = "parameters changed since approval"
message policy_changed = "policy changed since approval"
message no_task_for_approval = "no task for approval"
message owner_cannot_approve = "task owner cannot approve their own write"
message budget_exhausted = "task budget exhausted"
message negative_usage = "usage cannot be negative"
message stale_worker = "fencing version mismatch: worker is stale"
message bad_amount = "reservation amount must be positive"
message insufficient_budget = "insufficient budget for reservation"
message actor_required = "actor is required"
message no_approval = "write task has no approval"
message approval_gone = "approval gone"
message not_covered = "approval does not cover this execution"
message no_authorization = "live write authorization is not configured"
message (wrong_status s wanted) =
    String.◌++◌ "task is " (String.◌++◌ (status_text s) (String.◌++◌ ", not " wanted))
message (task_changed during) = String.◌++◌ "task changed during " during
message (not_a_write what) = String.◌++◌ what " applies to write tasks"
message (create_approval e) = String.◌++◌ "create approval: " (message e)
message (duplicate_task e) = String.◌++◌ "duplicate task: " (message e)
message (external u s) = s

abbrev pub is_unknown_result : Err → Bool
is_unknown_result (external u s) = u
is_unknown_result (create_approval e) = is_unknown_result e
is_unknown_result (duplicate_task e) = is_unknown_result e
is_unknown_result _ = false

abbrev pub is_no_rows : Err → Bool
is_no_rows no_rows = true
is_no_rows (create_approval e) = is_no_rows e
is_no_rows (duplicate_task e) = is_no_rows e
is_no_rows _ = false

-- `isUniqueViolation`.
unfoldable pub is_unique_violation : Err → Bool
unfolding message contains
is_unique_violation e =
    contains (message e) "UNIQUE constraint"
    || contains (message e) "Duplicate entry"
    || contains (message e) "duplicate key"

abbrev pub contention_markers : List String
contention_markers =
    "SQLITE_BUSY" ∷ "database is locked" ∷ "deadlock detected" ∷ "could not obtain lock"
    ∷ "SQLSTATE 40P01" ∷ "SQLSTATE 55P03" ∷ []

-- `isLockContention`.
unfoldable pub is_lock_contention : Err → Bool
unfolding message contains
is_lock_contention e = any (contains (message e)) contention_markers

-- `isTerminal`.
abbrev pub is_terminal : Status → Bool
is_terminal succeeded = true
is_terminal failed = true
is_terminal canceled = true
is_terminal timed_out = true
is_terminal unknown = true
is_terminal _ = false

abbrev pub is_queued : Status → Bool
is_queued queued = true
is_queued _ = false

abbrev pub is_running : Status → Bool
is_running running = true
is_running _ = false

abbrev pub is_waiting : Status → Bool
is_waiting waiting = true
is_waiting _ = false

abbrev pub is_unknown : Status → Bool
is_unknown unknown = true
is_unknown _ = false

abbrev pub is_write : Kind → Bool
is_write write = true
is_write _ = false

-- `version + 1` on int64. A version is only compared for equality and counted up, so it is kept as
-- the bit pattern of the signed number.
unfoldable pub next_version : ℕ → ℕ
next_version v = (v + 1) % 2 ^ 64

-- What one execution attempt reports.
pub record Outcome : Type 0 where
  pub result : String
  pub usage : ℤ
  pub retryable : Bool
  pub error : Option Err

-- The statements of a call that the database may refuse.
pub data Site : Type 0 where
  select_key select_task select_approval select_approved select_candidate : Site
  insert_task insert_approval insert_audit : Site
  update_task consume_approval claim_cas renew_lease : Site
  sweep_unknown sweep_timeout recover_requeue recover_unknown : Site
  tx_begin tx_commit : Site

-- What a new identifier is for.
pub data Purpose : Type 0 where
  for_task for_approval for_audit for_nonce : Purpose

-- Where a call outside a transaction lets other instances commit.
pub data Pause : Type 0 where
  after_read while_executing : Pause
  in_loop backoff : ℕ → Pause

-- What one call takes from outside: the store's policy version, the clock, SHA-256, random
-- identifiers, the database's refusals (by statement and round), what other instances commit at
-- each pause, the state of the context, and the hooks.
pub record Env : Type 0 where
  pub policy_version : String
  pub now : ℤ
  pub unix_after : ℤ → ℤ
  pub sha256_hex : String → String
  pub new_id : Purpose → ℕ → String
  pub fault : Site → ℕ → Option Err
  pub unique_text : String
  pub between : Pause → Db → Db
  pub canceled_at : ℕ → Option Err
  pub before_claim : Option Err
  pub before_execute : Option (Task → Option Err)
  pub before_store : Option Err
  pub before_approval_commit : Option (Task → Option Err)
