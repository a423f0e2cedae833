-- ===== src/Agent/Runner.antt =====
-- `Runner` of runner.go, with `decodeArgs` and the registry's `Lookup` of tools.go.
pub mod Turn
pub mod Invoke
pub mod Loop
pub mod Bounds
mod Proposals
pub mod Effects
pub mod Rounds
use Prim.Native.String.{String}
use gin_bear.Base.{ℕ, Bool, Option, List}
use gin_bear.Base.Int.{ℤ}
use gin_bear.Agent.Schema.Check.{Members, Params, SchemaErr}
use gin_bear.Agent.Budget.{Budget, Ledger, Gate}

-- `Identity` of identity.go.
pub record Identity : Type 0 where
  pub user_id : String
  pub tenant_id : String

-- `schema.ToolCall`, as far as it is read.
pub record ToolCall : Type 0 where
  pub id : String
  pub name : String
  pub arguments : String

-- `ResponseMeta.Usage`.
pub record Tokens : Type 0 where
  pub total : ℤ
  pub prompt : ℤ
  pub completion : ℤ

pub record Message : Type 0 where
  pub role : String
  pub content : String
  pub tool_call_id : String
  pub name : String
  pub tool_calls : List ToolCall
  pub usage : Option Tokens

-- `Usage`.
pub record Usage : Type 0 where
  pub tokens : ℤ
  pub has_report : Bool

-- `RunResult`.
pub record RunResult : Type 0 where
  pub text : String
  pub rounds : ℤ
  pub tool_calls : ℤ
  pub budget_end : Bool
  pub terminated : String

-- What a tool or a vendor returns: a value, or the text of its error.
pub data Executed : Type 0 where
  output : String → Executed
  broke : String → Executed

-- What `encoding/json` makes of the arguments.
pub data Decoded : Type 0 where
  members : Members → Decoded
  malformed : String → Decoded

-- `Tool`. Its functions are code of the application; the number is the moment of the call, so that
-- equal calls may end differently.
pub record Tool : Type 0 where
  pub declared : Option Params
  pub max_args_bytes : ℕ
  pub authorize : ℕ → Identity → Members → Option String
  pub execute : ℕ → Members → Executed

-- What a vendor's `Generate` returns; the message may be nil.
pub data Generated : Type 0 where
  answers : Option Message → Generated
  fails : String → Generated

-- One run's surroundings: its runner, and what it takes from outside: the vendor's model (by round),
-- the state of the context, `encoding/json`, SHA-256, `strconv.Quote` (`%q`), how a text that is cut
-- after a number of bytes reads, and the texts of the errors of the argument check.
pub record Setup : Type 0 where
  pub has_model : Bool
  pub has_tools : Bool
  pub budget : Budget
  pub tools : String → Option Tool
  pub has_metrics : Bool
  pub has_auditor : Bool
  pub generate : ℕ → List Message → ℤ → Generated
  pub canceled_at : ℕ → Option String
  pub canceled_at_admission : Option String
  pub unmarshal : String → Decoded
  pub sha256_hex : String → String
  pub quote : String → String
  pub first_bytes : ℕ → String → String
  pub schema_text : SchemaErr → Members → String
  pub meanwhile : Gate → Gate

-- `AuditRecord`, the fields that `recordToolCall` fills.
pub record AuditRecord : Type 0 where
  pub actor : String
  pub tenant : String
  pub decision : String
  pub tool : String
  pub args_digest : String
  pub outcome : String

-- What a run does to the world outside: the calls to the vendor, with what was spent before and the
-- allowance sent along, and the executions of tools.
pub data Effect : Type 0 where
  dials : List Message → ℤ → ℤ → Effect
  executes : ℕ → String → Members → Effect

-- The state of a run; `moment` counts the proposed calls.
pub record State : Type 0 where
  pub ledger : Ledger
  pub moment : ℕ
  pub effects : List Effect
  pub counted : List (String × String)
  pub audited : List AuditRecord
