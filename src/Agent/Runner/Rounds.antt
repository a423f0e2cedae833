-- ===== src/Agent/Runner/Rounds.antt =====
-- The calls to the vendor over the rounds of `Run` in runner.go.
use Prim.Native.String.{String}
use Prim.Native.String
use gin_bear.Base.{
  ℕ, zero, suc, ◌+◌, ◌≤◌, ◌≡◌, refl, subst, ◌∙◌, Bool, true, false, Option, none, some, List, [],
  ◌∷◌, ◌++◌, if◌then◌else◌, arith,
}
use gin_bear.Base.Int.{ℤ, pos, pos_part}
use gin_bear.Base.Text.{is_empty}
use gin_bear.Agent.Budget.{Ledger, Gate, Refusal, charge_call, charge_tokens, with_defaults}
use gin_bear.Agent.Runner.{
  Identity, ToolCall, Message, RunResult, Executed, output, broke, Tool, Setup, Effect, dials,
  executes, State,
}
use gin_bear.Agent.Runner.Turn.{
  Turned, exhausted, failed_turn, answered, stream_allowance, dialled, turn,
}
use gin_bear.Agent.Runner.Invoke.{
  Verdict, refuses, allows, judge, record_tool_call, invoke, after_verdict, finish, refuse,
}
use gin_bear.Agent.Runner.Loop.{
  act, no_calls, after_turn, budget_ended, unless_canceled, then_round, defaulted, Returned, ran,
  guarded, after_begin, admitted_run, first_state, no_result, Step, stops, continues, invoke_all,
  one_round, run_rounds, run,
}
use gin_bear.Agent.Runner.Proposals.{ended_or_rest}

-- The calls to the vendor among the effects of a run.
unfoldable pub dialed : List Effect → ℕ
dialed [] = 0
dialed (dials messages spent allowance ∷ es) = 1 + dialed es
dialed (executes moment name args ∷ es) = dialed es

module _ (setup : Setup) (identity : Identity) (call : ToolCall) where
  finish-dialed :
      (tool : Tool) (e : Executed) (s : State)
      → dialed (finish setup identity call tool e s).0.effects ≡ dialed s.effects
  unfolding record_tool_call
  finish-dialed tool (broke e) s = refl
  finish-dialed tool (output out) s = refl

  after_verdict-dialed :
      (v : Verdict) (s : State)
      → dialed (after_verdict setup identity call v s).0.effects ≡ dialed s.effects
  unfolding record_tool_call dialed
  after_verdict-dialed (refuses status detail error) s = refl
  after_verdict-dialed (allows tool args) s = go (charge_call call.name s.ledger).1
    where
      ledger : Ledger
      ledger = (charge_call call.name s.ledger).0

      e : String
      e = String.◌++◌ "tool " (String.◌++◌ (setup.quote call.name) " call cap exceeded")

      go :
          (over : Bool)
          → dialed
              (if over
                then refuse setup identity call "error" e e false (record s { ledger = ledger })
                else finish setup identity call tool (tool.execute s.moment args) (record s {
                  ledger = ledger;
                  effects = executes s.moment call.name args ∷ s.effects;
                })).0.effects
            ≡ dialed s.effects
      go true = refl
      go false = finish-dialed tool (tool.execute s.moment args) _

invoke_all-dialed :
    (setup : Setup) (identity : Identity) (calls : List ToolCall) (messages : List Message)
    (result : RunResult) (s : State)
    → dialed (invoke_all setup identity calls messages result s).0.effects ≡ dialed s.effects
unfolding invoke_all invoke
invoke_all-dialed setup identity [] messages result s = refl
invoke_all-dialed setup identity (call ∷ calls) messages result s =
    let here = after_verdict-dialed setup identity call (judge setup s.moment identity call) s in
    ended_or_rest (λ d. dialed d.effects ≡ dialed s.effects) _ _ _ here
      (invoke_all-dialed setup identity calls _ _ _ ∙ here)

module _ (setup : Setup) (identity : Identity) where
  act-dialed :
      (answer : Message) (messages : List Message) (result : RunResult) (s : State)
      → dialed (act setup identity answer messages result s).0.effects ≡ dialed s.effects
  act-dialed answer messages result s = go (no_calls answer.tool_calls)
    where
      go :
          (b : Bool)
          → dialed
              (if b
                then (s, stops (record result { text = answer.content }) none)
                else invoke_all setup identity answer.tool_calls
                    (messages ++ (answer ∷ []))
                    result
                    s).0.effects
            ≡ dialed s.effects
      go true = refl
      go false = invoke_all-dialed setup identity answer.tool_calls _ result s

  after_turn-dialed :
      (round : ℕ) (messages : List Message) (result : RunResult) (t : Turned) (s : State)
      → dialed (after_turn setup identity round messages result t s).0.effects ≡ dialed s.effects
  after_turn-dialed round messages result exhausted s = refl
  after_turn-dialed round messages result (failed_turn e) s = refl
  after_turn-dialed round messages result (answered answer usage) s =
      go (charge_tokens usage.tokens usage.has_report s.ledger).1
    where
      ledger : Ledger
      ledger = (charge_tokens usage.tokens usage.has_report s.ledger).0

      go :
          (over : Bool)
          → dialed
              (if over
                then (
                  record s { ledger = ledger },
                  stops (budget_ended result "token budget exhausted") none,
                )
                else act setup identity answer messages
                    (record result { rounds = pos (round + 1) })
                    (record s { ledger = ledger })).0.effects
            ≡ dialed s.effects
      go true = refl
      go false = act-dialed answer messages _ _

  dialled-dialed :
      (round : ℕ) (messages : List Message) (s : State) (o : Option ℤ)
      → dialed (dialled setup round messages s o).0.effects ≤ dialed s.effects + 1
  unfolding dialed
  dialled-dialed round messages s none = omega arith
  dialled-dialed round messages s (some a) = omega arith

  one_round-dialed :
      (round : ℕ) (messages : List Message) (result : RunResult) (s : State)
      → dialed (one_round setup identity round messages result s).0.effects ≤ dialed s.effects + 1
  unfolding one_round turn
  one_round-dialed round messages result s = go (setup.canceled_at round)
    where
      go :
          (o : Option String)
          → dialed (unless_canceled setup identity round messages result s o).0.effects
            ≤ dialed s.effects + 1
      go (some e) = omega arith
      go none =
          let turned =
            dialled setup round messages s (stream_allowance setup.budget s.ledger messages) in
          rw (after_turn-dialed round messages result turned.1 turned.0)
            (dialled-dialed round messages s (stream_allowance setup.budget s.ledger messages))

  then_round-dialed :
      (rest : List Message → RunResult → State → State × (RunResult × Option String)) (left : ℕ)
      → ((messages : List Message) (result : RunResult) (s : State)
          → dialed (rest messages result s).0.effects ≤ dialed s.effects + left)
      → (r : State × Step) → dialed (then_round rest r).0.effects ≤ dialed r.0.effects + left
  then_round-dialed rest left h (s, stops ended e) = omega arith
  then_round-dialed rest left h (s, continues messages result) = h messages result s

  run_rounds-dialed :
      (left round : ℕ) (messages : List Message) (result : RunResult) (s : State)
      → dialed (run_rounds setup identity left round messages result s).0.effects
        ≤ dialed s.effects + left
  unfolding run_rounds
  run_rounds-dialed zero round messages result s = omega arith
  run_rounds-dialed (suc left) round messages result s =
      let rest =
        then_round-dialed (run_rounds setup identity left (round + 1)) left
          (λ ms r d. run_rounds-dialed left (round + 1) ms r d)
          (one_round setup identity round messages result s) in
      omega (arith, rest, one_round-dialed round messages result s)

abbrev pub DialsAtMost : ℕ → Returned → Type 0
DialsAtMost n (ran s result e) = dialed s.effects ≤ n
DialsAtMost n _ = Unit

module _ (setup : Setup) (identity : Identity) (input : List Message) where
  admitted_run-dialed :
      (gate : Gate) (o : Option String)
      → DialsAtMost (pos_part setup.budget.max_rounds) (admitted_run setup identity input gate o).1
  unfolding dialed
  admitted_run-dialed gate (some e) = tt
  admitted_run-dialed gate none = omega (
    arith,
    run_rounds-dialed setup identity (pos_part setup.budget.max_rounds) 0 input no_result
        (first_state setup),
  )

  after_begin-dialed :
      (begun : Gate × Option Refusal)
      → DialsAtMost (pos_part setup.budget.max_rounds) (after_begin setup identity input begun).1
  after_begin-dialed (gate, some refusal) = tt
  after_begin-dialed (gate, none) = admitted_run-dialed gate setup.canceled_at_admission

guarded-dialed :
    (n : ℕ) (b c : Bool) (gate : Gate) (r : Gate × Returned)
    → DialsAtMost n r.1
    → DialsAtMost n (guarded b c gate r).1
guarded-dialed n true c gate r h = tt
guarded-dialed n false true gate r h = tt
guarded-dialed n false false gate r h = h

-- A run calls the vendor at most as often as the (defaulted) `MaxRounds` says, however the vendor, the
-- tools and the context behave.
pub run-dialed :
    (setup : Setup) (shared : Option Gate) (identity : Identity) (input : List Message)
    {gate : Gate} {s : State} {result : RunResult} {e : Option String}
    → run setup shared identity input ≡ (gate, ran s result e)
    → dialed s.effects ≤ pos_part (with_defaults setup.budget).max_rounds
unfolding run
run-dialed setup shared identity input h =
    subst (λ r. DialsAtMost (pos_part (with_defaults setup.budget).max_rounds) r.1) h
      (guarded-dialed _ (is_empty identity.user_id) _ _ _
        (after_begin-dialed (defaulted setup) identity input _))
