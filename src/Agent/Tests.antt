-- ===== src/Agent/Tests.antt =====
-- Runs of the agent on small inputs.
use Prim.Native.String.{String}
use text.Mathlib.Text.{◌==◌}
use gin_bear.Base.{
  ◌≤◌, ◌≡◌, refl, subst, ◌↔◌, Bool, true, false, none, some, List, [], ◌∷◌, All, eqb, if◌then◌else◌,
  arith,
}
use gin_bear.Base.Int.{pos_part, pos, negsuc, InRange, leb_ℤ, ltb_ℤ, add64, sub64, wrap, ◌+ℤ◌, ◌-ℤ◌}
use gin_bear.Base.Text.{is_blank, lowered_is}
use gin_bear.Agent.Schema.Check.{
  number, string, object, Members, end, member, Params, empty, field, param, absent, check_params,
  check_value, validate_tool_args, all_declared, declares, lookup_member, is_integral,
}
use gin_bear.Agent.Schema.Valid.{Fulfils, Closed}
use gin_bear.Agent.Schema.Laws.{check_params_iff}
use gin_bear.Agent.Budget.{
  Budget, Gate, with_defaults, new_gate, Refusal, begin_run, counted, release, put, charge_call,
  charge_tokens,
}
use gin_bear.Agent.Budget.Admission.{fresh, admitted, refused, ended, here, Admits, Reaches-Admits}
use gin_bear.Agent.Runner.{
  Identity, ToolCall, Message, output, members, Generated, answers, Setup, State,
}
use gin_bear.Agent.Runner.Turn.{
  byte_length, estimate_tokens, capped, stream_allowance, model_usage, turn,
}
use gin_bear.Agent.Runner.Invoke.{decode_args, judge, record_tool_call, invoke}
use gin_bear.Agent.Runner.Loop.{
  Returned, ran, invoke_all, one_round, run_rounds, run, first_state, defaulted,
}
use gin_bear.Agent.Runner.Bounds.{IsAmount, Lawful, Metered}
use gin_bear.Agent.Runner.Effects.{run-Lawful}
use gin_bear.Agent.Runner.Rounds.{dialed, run-dialed}

-- A filter of one member, which is to be one of two texts, and a page number.
abbrev filter_params : Params
filter_params = field "state" (param "String" "" ("open" ∷ "done" ∷ []) true empty absent) empty

abbrev page_params : Params
page_params = field "page" (param "integer" "" [] true empty absent) empty

abbrev search_params : Params
search_params =
    field "filter" (param "object" "" [] true filter_params absent)
      (field "page" (param "integer" "" [] false empty absent) empty)

abbrev search_args : Members
search_args =
    member "filter" (object (member "state" (string "open") end))
      (member "page" (number (pos 3) (negsuc 0)) end)

check_params_iff_example :
    (check_params search_params search_args ≡ none)
    ↔ (Fulfils search_args search_params × Closed search_params search_args)
check_params_iff_example = check_params_iff search_params search_args

abbrev one_at_a_time : Budget
one_at_a_time = record {
  max_rounds = pos 2;
  max_tokens = pos 1000;
  reserve_tokens = pos 0;
  max_output_tokens = pos 50;
  total_timeout = pos 0;
  tool_timeout = pos 0;
  max_calls_per_tool = pos 0;
  max_concurrent = pos 1;
  max_user_calls = pos 0;
}

abbrev busy_gate : Gate
busy_gate = counted "ann" (new_gate one_at_a_time)

first_admitted : begin_run "ann" (new_gate one_at_a_time) ≡ (busy_gate, none)
unfolding begin_run new_gate with_defaults leb_ℤ
first_admitted = refl

second_refused : begin_run "ann" busy_gate ≡ (busy_gate, some Refusal.too_many_runs)
unfolding begin_run new_gate with_defaults leb_ℤ put add64 wrap ◌+ℤ◌
second_refused = refl

limits_InRange :
    InRange (with_defaults one_at_a_time).max_concurrent
    × InRange (with_defaults one_at_a_time).max_user_calls
unfolding with_defaults leb_ℤ
limits_InRange = (omega arith, omega arith)

Reaches-Admits_example : Admits one_at_a_time (release "ann" busy_gate) [] ("ann" ∷ [])
Reaches-Admits_example =
    Reaches-Admits one_at_a_time limits_InRange.0 limits_InRange.1
      (ended "ann" (refused "ann" (admitted fresh first_admitted) second_refused) here)

abbrev ann : Identity
ann = record { user_id = "ann"; tenant_id = "acme" }

abbrev say : String → List ToolCall → Message
say content calls = record {
  role = "assistant";
  content = content;
  tool_call_id = "";
  name = "";
  tool_calls = calls;
  usage = some (record { total = pos 7; prompt = pos 0; completion = pos 0 });
}

abbrev proposal : Message
proposal = say "" (record { id = "c1"; name = "list"; arguments = "{\"page\":1}" } ∷ [])

-- A vendor that proposes one call of a tool, and then answers.
abbrev one_call : Setup
one_call = record {
  has_model = true;
  has_tools = true;
  budget = one_at_a_time;
  tools = λ name.
      if name == "list"
      then some record {
        declared = some page_params;
        max_args_bytes = 4096;
        authorize = λ moment who args. none;
        execute = λ moment args. output "[]";
      }
      else none;
  has_metrics = true;
  has_auditor = true;
  generate = λ round messages allowance.
      if eqb round 0 then answers (some proposal) else answers (some (say "done" []));
  canceled_at = λ round. none;
  canceled_at_admission = none;
  unmarshal = λ raw. members (member "page" (number (pos 1) (pos 0)) end);
  sha256_hex = λ s. s;
  quote = λ s. s;
  first_bytes = λ n s. s;
  schema_text = λ e args. "bad arguments";
  meanwhile = λ g. g;
}

-- Both answers report seven tokens.
reports_seven :
    (first : Bool) (m : Message)
    → ◌≡◌ {A = Generated}
        (if first then answers (some proposal) else answers (some (say "done" [])))
        (answers (some m))
    → IsAmount (model_usage m.usage).tokens
unfolding model_usage leb_ℤ
reports_seven true m h =
    let same : proposal ≡ m = cc in
    subst (λ (m' : Message). IsAmount (model_usage m'.usage).tokens) same (omega arith, omega arith)
reports_seven false m h =
    let same : say "done" [] ≡ m = cc in
    subst (λ (m' : Message). IsAmount (model_usage m'.usage).tokens) same (omega arith, omega arith)

one_call-Metered : Metered (defaulted one_call)
unfolding with_defaults leb_ℤ
one_call-Metered = record {
  max_tokens = (omega arith, omega arith);
  reserve = (omega arith, omega arith);
  reports = λ round messages allowance m h. reports_seven (eqb round 0) m h;
}

abbrev state_of : Returned → State
state_of (ran s result e) = s
state_of _ = first_state one_call

abbrev one_call_run : Gate × Returned
one_call_run = run one_call none ann (say "hi" [] ∷ [])

one_call_ends : one_call_run ≡ (
  one_call_run.0,
  ran
      (state_of one_call_run.1)
      (record {
        text = "done";
        rounds = pos 2;
        tool_calls = pos 1;
        budget_end = false;
        terminated = "";
      })
      none,
)
unfolding run run_rounds one_round turn stream_allowance estimate_tokens capped model_usage
    invoke_all invoke judge decode_args record_tool_call charge_call charge_tokens begin_run
    new_gate release put with_defaults validate_tool_args check_params check_value all_declared
    declares lookup_member is_blank byte_length sub64 add64 wrap ◌+ℤ◌ ◌-ℤ◌ leb_ℤ ltb_ℤ lowered_is
    is_integral
one_call_ends = refl

run-Lawful_example : All (Lawful (defaulted one_call) ann) (state_of one_call_run.1).effects
run-Lawful_example = run-Lawful one_call none ann (say "hi" [] ∷ []) one_call-Metered one_call_ends

run-dialed_example :
    dialed (state_of one_call_run.1).effects ≤ pos_part (with_defaults one_at_a_time).max_rounds
run-dialed_example = run-dialed one_call none ann (say "hi" [] ∷ []) one_call_ends
