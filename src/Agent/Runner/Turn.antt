-- ===== src/Agent/Runner/Turn.antt =====
-- `turn`, `streamAllowance`, `estimateTokens` and `modelUsage` of runner.go.
use Prim.Native.Char.{code}
use Prim.Native.String.{String}
use Prim.Native.String
use gin_bear.Base.{ℕ, ◌+◌, ◌/◌, true, false, Option, none, some, List, [], ◌∷◌, if◌then◌else◌, ltb}
use gin_bear.Base.Int.{ℤ, pos, leb_ℤ, ltb_ℤ, add64, sub64}
use gin_bear.Agent.Budget.{Budget, Ledger}
use gin_bear.Agent.Runner.{
  ToolCall, Tokens, Message, Usage, Generated, answers, fails, Setup, dials, State,
}

-- `len(s)`: the bytes of a text in UTF-8.
unfoldable pub byte_length : String → ℕ
byte_length String.[] = 0
byte_length (String.◌∷◌ c s) =
    (if ltb (code c) 0x80
      then 1
      else if ltb (code c) 0x800
      then 2
      else if ltb (code c) 0x10000
      then 3
      else 4)
    + byte_length s

call_size : List ToolCall → ℕ
unfolding byte_length
call_size [] = 0
call_size (c ∷ cs) =
    byte_length c.id + byte_length c.name + byte_length c.arguments + 32 + call_size cs

message_size : List Message → ℕ
unfolding byte_length call_size
message_size [] = 0
message_size (m ∷ ms) = byte_length m.content + 64 + call_size m.tool_calls + message_size ms

-- `estimateTokens`.
unfoldable pub estimate_tokens : List Message → ℕ
unfolding message_size
estimate_tokens messages = message_size messages / 4

-- `if allowance > remaining - inputEstimate { … }`, and the test below it.
unfoldable pub capped : ℤ → ℤ → Option ℤ
capped allowance left =
    let least = if ltb_ℤ left allowance then left else allowance in
    if ltb_ℤ least (pos 1) then none else some least

-- The allowance for the answer; `none` is `errBudgetExhausted`.
unfoldable pub stream_allowance : Budget → Ledger → List Message → Option ℤ
stream_allowance budget ledger messages =
    let remaining = sub64 budget.max_tokens ledger.tokens in
    let estimate = pos (estimate_tokens messages) in
    if leb_ℤ remaining (pos 0)
    then none
    else if leb_ℤ remaining estimate
    then none
    else capped budget.max_output_tokens (sub64 remaining estimate)

-- `modelUsage`, with the `Usage` that `turn` makes of it.
unfoldable pub model_usage : Option Tokens → Usage
model_usage none = record { tokens = pos 0; has_report = false }
model_usage (some t) =
    let total = if leb_ℤ t.total (pos 0) then add64 t.prompt t.completion else t.total in
    if leb_ℤ total (pos 0)
    then record { tokens = pos 0; has_report = false }
    else record { tokens = total; has_report = true }

-- How a turn ends.
pub data Turned : Type 0 where
  exhausted : Turned
  failed_turn : String → Turned
  answered : Message → Usage → Turned

abbrev pub read_answer : Generated → Turned
read_answer (fails e) = failed_turn (String.◌++◌ "model turn failed: " e)
read_answer (answers none) = failed_turn "model returned no message"
read_answer (answers (some m)) = answered m (model_usage m.usage)

abbrev pub dialled : Setup → ℕ → List Message → State → Option ℤ → State × Turned
dialled setup round messages s none = (s, exhausted)
dialled setup round messages s (some allowance) = (
  record s { effects = dials messages s.ledger.tokens allowance ∷ s.effects },
  read_answer (setup.generate round messages allowance),
)

-- `turn`. The vendor is called only where there is an allowance.
unfoldable pub turn : Setup → ℕ → List Message → State → State × Turned
turn setup round messages s =
    dialled setup round messages s (stream_allowance setup.budget s.ledger messages)
