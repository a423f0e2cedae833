-- ===== src/Agent/Runner/Invoke.antt =====
-- `invoke` and `recordToolCall` of runner.go, `decodeArgs` of tools.go.
use Prim.Native.String.{String}
use Prim.Native.String
use gin_bear.Base.{ℕ, ◌+◌, ◌*◌, ltb, Bool, true, false, Option, none, some, [], ◌∷◌, if◌then◌else◌}
use gin_bear.Base.Text.{is_blank, decimal}
use gin_bear.Agent.Schema.Check.{SchemaErr, Members, end, validate_tool_args}
use gin_bear.Agent.Budget.{charge_call}
use gin_bear.Agent.Runner.{
  Identity, ToolCall, Message, Executed, output, broke, Decoded, members, malformed, Tool, Setup,
  AuditRecord, executes, State,
}
use gin_bear.Agent.Runner.Turn.{byte_length}

abbrev pub not_an_object : Decoded → Decoded
not_an_object (members ms) = members ms
not_an_object (malformed e) = malformed (String.◌++◌ "tool arguments are not a JSON object: " e)

-- `decodeArgs`: `TrimSpace(raw) == ""` is no arguments.
unfoldable pub decode_args : Setup → String → ℕ → Decoded
decode_args setup raw max_bytes =
    if ltb max_bytes (byte_length raw)
    then malformed (String.◌++◌ "tool arguments exceed " (String.◌++◌ (decimal max_bytes) " bytes"))
    else if is_blank raw
    then members end
    else not_an_object (setup.unmarshal raw)

-- `recordToolCall`.
unfoldable pub record_tool_call : Setup → Identity → ToolCall → String → State → State
record_tool_call setup identity call status s =
    let entry : AuditRecord = record {
      actor = identity.user_id;
      tenant = identity.tenant_id;
      decision = String.◌++◌ "tool:" call.name;
      tool = call.name;
      args_digest = setup.sha256_hex call.arguments;
      outcome = status;
    } in
    record s {
      counted = if setup.has_metrics then (call.name, status) ∷ s.counted else s.counted;
      audited = if setup.has_auditor then entry ∷ s.audited else s.audited;
    }

abbrev pub tool_message : ToolCall → String → Message
tool_message call content = record {
  role = "tool";
  content = content;
  tool_call_id = call.id;
  name = call.name;
  tool_calls = [];
  usage = none;
}

-- `toolErrorMessage`.
abbrev pub tool_error_message : ToolCall → String → Message
tool_error_message call detail = tool_message call (String.◌++◌ "tool error: " detail)

-- The three results of `invoke`.
pub record Invoked : Type 0 where
  pub message : Message
  pub executed : Bool
  pub error : Option String

-- What the checks before the charge decide: the status, the detail shown to the model and the error
-- of a refusal, or the tool and its arguments.
pub data Verdict : Type 0 where
  refuses : (status detail error : String) → Verdict
  allows : Tool → Members → Verdict

abbrev pub judge_authorized : Tool → Members → Option String → Verdict
judge_authorized tool args none = allows tool args
judge_authorized tool args (some e) = refuses "denied" "not authorized" e

abbrev pub judge_validated : Setup → ℕ → Identity → Tool → Members → Option SchemaErr → Verdict
judge_validated setup moment identity tool args none =
    judge_authorized tool args (tool.authorize moment identity args)
judge_validated setup moment identity tool args (some e) =
    refuses "error" (setup.schema_text e args) (setup.schema_text e args)

abbrev pub judge_decoded : Setup → ℕ → Identity → Tool → Decoded → Verdict
judge_decoded setup moment identity tool (malformed e) = refuses "error" e e
judge_decoded setup moment identity tool (members args) =
    judge_validated setup moment identity tool args (validate_tool_args tool.declared args)

abbrev pub judge_found : Setup → ℕ → Identity → ToolCall → Option Tool → Verdict
judge_found setup moment identity call none =
    let e = String.◌++◌ "unknown tool " (setup.quote call.name) in refuses "error" e e
judge_found setup moment identity call (some tool) =
    judge_decoded setup moment identity tool (decode_args setup call.arguments tool.max_args_bytes)

-- The checks of `invoke`: lookup, decoding, validation and authorization, in this order.
unfoldable pub judge : Setup → ℕ → Identity → ToolCall → Verdict
judge setup moment identity call = judge_found setup moment identity call (setup.tools call.name)

-- The error branches of `invoke`.
abbrev pub refuse :
    Setup
    → Identity
    → ToolCall
    → (status detail error : String) → (executed : Bool) → State
    → State × Invoked
refuse setup identity call status detail error executed s = (
  record_tool_call setup identity call status s,
  record { message = tool_error_message call detail; executed = executed; error = some error },
)

-- The cut of a long output.
abbrev pub truncated : Setup → ℕ → String → String
truncated setup max_bytes out =
    if ltb (max_bytes * 4) (byte_length out)
    then String.◌++◌ (setup.first_bytes (max_bytes * 4) out) "...[truncated]"
    else out

abbrev pub finish : Setup → Identity → ToolCall → Tool → Executed → State → State × Invoked
finish setup identity call tool (broke e) s = refuse setup identity call "error" e e true s
finish setup identity call tool (output out) s = (
  record_tool_call setup identity call "ok" s,
  record {
    message = tool_message call (truncated setup tool.max_args_bytes out);
    executed = true;
    error = none;
  },
)

abbrev pub charged_and_run : Setup → Identity → ToolCall → Tool → Members → State → State × Invoked
charged_and_run setup identity call tool args s =
    let (ledger, over) = charge_call call.name s.ledger in
    let e = String.◌++◌ "tool " (String.◌++◌ (setup.quote call.name) " call cap exceeded") in
    if over
    then refuse setup identity call "error" e e false (record s { ledger = ledger })
    else finish setup identity call tool (tool.execute s.moment args)
        (record s { ledger = ledger; effects = executes s.moment call.name args ∷ s.effects })

abbrev pub after_verdict : Setup → Identity → ToolCall → Verdict → State → State × Invoked
after_verdict setup identity call (refuses status detail error) s =
    refuse setup identity call status detail error false s
after_verdict setup identity call (allows tool args) s =
    charged_and_run setup identity call tool args s

-- `invoke`.
unfoldable pub invoke : Setup → Identity → ToolCall → State → State × Invoked
invoke setup identity call s =
    let (s', i) = after_verdict setup identity call (judge setup s.moment identity call) s in
    (record s' { moment = s.moment + 1 }, i)
