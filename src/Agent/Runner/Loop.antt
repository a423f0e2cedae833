-- ===== src/Agent/Runner/Loop.antt =====
-- `Run`, `admit`, `isBudgetEnd` and `isCancel` of runner.go.
use Prim.Native.String.{String}
use gin_bear.Base.{
  ℕ, zero, suc, ◌+◌, Bool, true, false, not, ◌||◌, Option, none, some, List, [], ◌∷◌, ◌++◌,
  if◌then◌else◌,
}
use gin_bear.Base.Int.{pos, pos_part, add64}
use gin_bear.Base.Text.{contains, is_empty}
use gin_bear.Agent.Budget.{
  Budget, Gate, Refusal, with_defaults, new_gate, begin_run, release, charge_tokens,
}
use gin_bear.Agent.Runner.{Identity, ToolCall, Message, RunResult, Setup, State}
use gin_bear.Agent.Runner.Turn.{Turned, exhausted, failed_turn, answered, turn}
use gin_bear.Agent.Runner.Invoke.{invoke}

-- `isBudgetEnd` of an error.
unfoldable pub is_budget_end : String → Bool
is_budget_end e =
    contains e "budget exhausted" || contains e "call cap exceeded" || contains e "max rounds"

-- `isCancel` of an error.
unfoldable pub is_cancel : String → Bool
is_cancel e = contains e "context canceled" || contains e "context deadline exceeded"

-- What one round, or one proposed call in it, leads to: the end of the run, with its error, or the
-- messages and the result so far.
pub data Step : Type 0 where
  stops : RunResult → Option String → Step
  continues : List Message → RunResult → Step

abbrev pub budget_ended : RunResult → String → RunResult
budget_ended result why = record result { budget_end = true; terminated = why }

-- `if executed { result.ToolCalls++ }`.
abbrev pub count_executed : Bool → RunResult → RunResult
count_executed executed result =
    if executed then record result { tool_calls = add64 result.tool_calls (pos 1) } else result

-- Whether the error of a call ends the run, and how.
abbrev pub call_ends : Option String → RunResult → Option RunResult
call_ends none result = none
call_ends (some e) result =
    if is_budget_end e || is_cancel e
    then some (record result { budget_end = is_budget_end e; terminated = e })
    else none

abbrev pub either_end : State → State × Step → Option RunResult → State × Step
either_end s rest none = rest
either_end s rest (some ended) = (s, stops ended none)

-- The loop over the calls of an answer.
unfoldable pub invoke_all :
    Setup → Identity → List ToolCall → List Message → RunResult → State → State × Step
invoke_all setup identity [] messages result s = (s, continues messages result)
invoke_all setup identity (call ∷ calls) messages result s =
    let (s', i) = invoke setup identity call s in
    let result' = count_executed i.executed result in
    let rest = invoke_all setup identity calls (messages ++ (i.message ∷ [])) result' s' in
    either_end s' rest (call_ends i.error result')

abbrev pub no_calls : List ToolCall → Bool
no_calls [] = true
no_calls _ = false

-- A round after the answer is charged.
abbrev pub act : Setup → Identity → Message → List Message → RunResult → State → State × Step
act setup identity answer messages result s =
    if no_calls answer.tool_calls
    then (s, stops (record result { text = answer.content }) none)
    else invoke_all setup identity answer.tool_calls (messages ++ (answer ∷ [])) result s

abbrev pub after_turn :
    Setup → Identity → ℕ → List Message → RunResult → Turned → State → State × Step
after_turn setup identity round messages result exhausted s =
    (s, stops (budget_ended result "token budget exhausted") none)
after_turn setup identity round messages result (failed_turn e) s = (s, stops result (some e))
after_turn setup identity round messages result (answered answer usage) s =
    let (ledger, over) = charge_tokens usage.tokens usage.has_report s.ledger in
    let charged = record s { ledger = ledger } in
    if over
    then (charged, stops (budget_ended result "token budget exhausted") none)
    else act setup identity answer messages (record result { rounds = pos (round + 1) }) charged

abbrev pub unless_canceled :
    Setup → Identity → ℕ → List Message → RunResult → State → Option String → State × Step
unless_canceled setup identity round messages result s (some e) = (s, stops result (some e))
unless_canceled setup identity round messages result s none =
    let (s', turned) = turn setup round messages s in
    after_turn setup identity round messages result turned s'

-- The body of the loop of `Run`.
unfoldable pub one_round : Setup → Identity → ℕ → List Message → RunResult → State → State × Step
one_round setup identity round messages result s =
    unless_canceled setup identity round messages result s (setup.canceled_at round)

-- What follows a round: the end, or the rest of the loop.
abbrev pub then_round :
    (List Message → RunResult → State → State × (RunResult × Option String))
    → State × Step
    → State × (RunResult × Option String)
then_round rest (s, stops ended e) = (s, (ended, e))
then_round rest (s, continues messages result) = rest messages result s

-- The loop of `Run`, with the number of rounds left.
unfoldable pub run_rounds :
    Setup
    → Identity
    → ℕ
    → ℕ
    → List Message
    → RunResult
    → State
    → State × (RunResult × Option String)
run_rounds setup identity zero round messages result s =
    (s, (budget_ended result "max rounds reached", none))
run_rounds setup identity (suc left) round messages result s =
    then_round (run_rounds setup identity left (round + 1))
      (one_round setup identity round messages result s)

abbrev pub no_result : RunResult
no_result = record {
  text = "";
  rounds = pos 0;
  tool_calls = pos 0;
  budget_end = false;
  terminated = "";
}

-- The state in which `admit` leaves a run.
abbrev pub first_state : Setup → State
first_state setup = record {
  ledger = record { tokens = pos 0; calls = λ _. pos 0; budget = setup.budget; exhausted = false };
  moment = 0;
  effects = [];
  counted = [];
  audited = [];
}

-- The runner after `r.Budget = r.Budget.withDefaults()`.
abbrev pub defaulted : Setup → Setup
defaulted setup = record setup { budget = with_defaults setup.budget }

-- What the caller of `Run` receives: the refusal of `admit`, or the end of the run.
pub data Returned : Type 0 where
  no_identity not_configured : Returned
  not_admitted : Refusal → Returned
  canceled_first : String → Returned
  ran : State → RunResult → Option String → Returned

-- The run between `admit` and its deferred release, while other runs use the gate.
abbrev pub admitted_run : Setup → Identity → List Message → Gate → Option String → Gate × Returned
admitted_run setup identity input gate (some e) = (release identity.user_id gate, canceled_first e)
admitted_run setup identity input gate none =
    let (s, (result, e)) =
      run_rounds setup identity (pos_part setup.budget.max_rounds) 0 input no_result
        (first_state setup) in
    (release identity.user_id (setup.meanwhile gate), ran s result e)

abbrev pub after_begin : Setup → Identity → List Message → Gate × Option Refusal → Gate × Returned
after_begin setup identity input (gate, some refusal) = (gate, not_admitted refusal)
after_begin setup identity input (gate, none) =
    admitted_run setup identity input gate setup.canceled_at_admission

-- The gate of a run: the shared one, or an isolated one.
abbrev pub gate_or_new : Budget → Option Gate → Gate
gate_or_new budget none = new_gate budget
gate_or_new budget (some gate) = gate

-- The first tests of `admit`.
abbrev pub guarded : Bool → Bool → Gate → Gate × Returned → Gate × Returned
guarded true unset gate go = (gate, no_identity)
guarded false true gate go = (gate, not_configured)
guarded false false gate go = go

-- `Run`: the gate after it, and what it returns.
unfoldable pub run : Setup → Option Gate → Identity → List Message → Gate × Returned
run setup shared identity input =
    let gate = gate_or_new (with_defaults setup.budget) shared in
    guarded (is_empty identity.user_id) (not setup.has_model || not setup.has_tools) gate
      (after_begin (defaulted setup) identity input (begin_run identity.user_id gate))
