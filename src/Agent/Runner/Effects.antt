-- ===== src/Agent/Runner/Effects.antt =====
-- The effects of a whole run of runner.go on the world outside.
use Prim.Native.String.{String}
use gin_bear.Base.{
  ℕ, zero, suc, ◌+◌, ◌≡◌, refl, subst, Bool, true, false, Option, none, some, List, [], ◌∷◌, ◌++◌,
  if◌then◌else◌, All, arith,
}
use gin_bear.Base.Int.{ℤ, pos, pos_part}
use gin_bear.Base.Text.{is_empty}
use gin_bear.Agent.Budget.{Ledger, Gate, Refusal, charge_tokens}
use gin_bear.Agent.Runner.{
  Identity, Message, Usage, RunResult, Generated, answers, fails, Setup, State,
}
use gin_bear.Agent.Runner.Turn.{stream_allowance, model_usage, answered, dialled, read_answer, turn}
use gin_bear.Agent.Runner.Loop.{
  act, no_calls, after_turn, budget_ended, unless_canceled, then_round, defaulted, Returned, ran,
  guarded, after_begin, admitted_run, first_state, no_result, Step, stops, continues, invoke_all,
  one_round, run_rounds, run,
}
use gin_bear.Agent.Runner.Bounds.{
  Lawful, IsAmount, Metered, Solvent, Sound, stream_allowance-Fits, charge_tokens-within,
}
use gin_bear.Agent.Runner.Proposals.{invoke_all-kept}

turn-Lawful :
    (setup : Setup) (identity : Identity) (round : ℕ) (messages : List Message) (s : State)
    → Metered setup
    → Sound setup identity s
    → Sound setup identity (turn setup round messages s).0
unfolding turn
turn-Lawful setup identity round messages s metered sound =
    go (stream_allowance setup.budget s.ledger messages) refl
  where
    go :
        (o : Option ℤ)
        → stream_allowance setup.budget s.ledger messages ≡ o
        → Sound setup identity (dialled setup round messages s o).0
    go none e = sound
    go (some a) e = record {
      solvent = sound.solvent;
      lawful = (
        stream_allowance-Fits setup s.ledger messages a metered.max_tokens sound.solvent e,
        sound.lawful,
      );
    }

-- A round leaves lawful effects, and where the run goes on a ledger within its budget.
abbrev pub Goes : Setup → Identity → State × Step → Type 0
Goes setup identity (s, stops result e) = All (Lawful setup identity) s.effects
Goes setup identity (s, continues messages result) = Sound setup identity s

Sound-Goes :
    {setup : Setup} {identity : Identity} (r : State × Step)
    → Sound setup identity r.0
    → Goes setup identity r
Sound-Goes (s, stops result e) sound = sound.lawful
Sound-Goes (s, continues messages result) sound = sound

module _ (setup : Setup) (identity : Identity) (metered : Metered setup) where
  act-Goes :
      (answer : Message) (messages : List Message) (result : RunResult) (s : State)
      → Sound setup identity s
      → Goes setup identity (act setup identity answer messages result s)
  act-Goes answer messages result s sound = go (no_calls answer.tool_calls)
    where
      go :
          (b : Bool)
          → Goes setup identity (
              if b
              then (s, stops (record result { text = answer.content }) none)
              else invoke_all setup identity answer.tool_calls (messages ++ (answer ∷ [])) result s)
      go true = sound.lawful
      go false = Sound-Goes _ (invoke_all-kept setup identity answer.tool_calls _ result s sound)

  answered-Goes :
      (round : ℕ) (messages : List Message) (result : RunResult) (answer : Message) (usage : Usage)
      (s : State)
      → IsAmount usage.tokens
      → Sound setup identity s
      → Goes setup identity
          (after_turn setup identity round messages result (answered answer usage) s)
  answered-Goes round messages result answer usage s amount sound =
      go (charge_tokens usage.tokens usage.has_report s.ledger).1 (
        charge_tokens-within setup usage.tokens usage.has_report s.ledger metered amount
          sound.solvent)
    where
      ledger : Ledger
      ledger = (charge_tokens usage.tokens usage.has_report s.ledger).0

      go :
          (over : Bool)
          → (over ≡ false → Solvent setup ledger)
          → Goes setup identity (
              if over
              then (
                record s { ledger = ledger },
                stops (budget_ended result "token budget exhausted") none,
              )
              else act setup identity answer messages
                  (record result { rounds = pos (round + 1) })
                  (record s { ledger = ledger }))
      go true solvent = sound.lawful
      go false solvent =
          act-Goes answer messages _ _ record { solvent = solvent refl; lawful = sound.lawful }

  turned-Goes :
      (round : ℕ) (messages : List Message) (result : RunResult) (s : State) (o : Option ℤ)
      → Sound setup identity (dialled setup round messages s o).0
      → Goes setup identity (
          after_turn setup identity round messages result
            (dialled setup round messages s o).1
            (dialled setup round messages s o).0)
  turned-Goes round messages result s none sound = sound.lawful
  turned-Goes round messages result s (some a) sound = go _ refl sound
    where
      go :
          (g : Generated)
          → setup.generate round messages a ≡ g
          → {d : State} → Sound setup identity d
          → Goes setup identity (after_turn setup identity round messages result (read_answer g) d)
      go (fails e) h sound = sound.lawful
      go (answers none) h sound = sound.lawful
      go (answers (some m)) h sound =
          answered-Goes round messages result m (model_usage m.usage) _
            (metered.reports round messages a m h) sound

  one_round-Goes :
      (round : ℕ) (messages : List Message) (result : RunResult) (s : State)
      → Sound setup identity s
      → Goes setup identity (one_round setup identity round messages result s)
  unfolding one_round turn
  one_round-Goes round messages result s sound = go (setup.canceled_at round)
    where
      go :
          (o : Option String)
          → Goes setup identity (unless_canceled setup identity round messages result s o)
      go (some e) = sound.lawful
      go none =
          turned-Goes round messages result s (stream_allowance setup.budget s.ledger messages)
            (turn-Lawful setup identity round messages s metered sound)

  then_round-Lawful :
      (rest : List Message → RunResult → State → State × (RunResult × Option String))
      → ((messages : List Message) (result : RunResult) (s : State)
          → Sound setup identity s
          → All (Lawful setup identity) (rest messages result s).0.effects)
      → (r : State × Step) → Goes setup identity r
      → All (Lawful setup identity) (then_round rest r).0.effects
  then_round-Lawful rest lawful (s, stops ended e) goes = goes
  then_round-Lawful rest lawful (s, continues messages result) goes = lawful messages result s goes

  run_rounds-Lawful :
      (left round : ℕ) (messages : List Message) (result : RunResult) (s : State)
      → Sound setup identity s
      → All
          (Lawful setup identity)
          (run_rounds setup identity left round messages result s).0.effects
  unfolding run_rounds
  run_rounds-Lawful zero round messages result s sound = sound.lawful
  run_rounds-Lawful (suc left) round messages result s sound =
      then_round-Lawful (run_rounds setup identity left (round + 1))
        (λ ms r d h. run_rounds-Lawful left (round + 1) ms r d h)
        (one_round setup identity round messages result s)
        (one_round-Goes round messages result s sound)

abbrev pub LawfulReturn : Setup → Identity → Returned → Type 0
LawfulReturn setup identity (ran s result e) = All (Lawful setup identity) s.effects
LawfulReturn setup identity _ = Unit

first_state-Sound :
    (setup : Setup) (identity : Identity) → Metered setup → Sound setup identity (first_state setup)
first_state-Sound setup identity metered = record {
  solvent = record { same_budget = refl; some_spent = omega arith; within = metered.max_tokens.0 };
  lawful = tt;
}

module _ (setup : Setup) (identity : Identity) (input : List Message) where
  admitted_run-Lawful :
      (gate : Gate) (o : Option String)
      → Metered setup
      → LawfulReturn setup identity (admitted_run setup identity input gate o).1
  admitted_run-Lawful gate (some e) metered = tt
  admitted_run-Lawful gate none metered =
      run_rounds-Lawful setup identity metered (pos_part setup.budget.max_rounds) 0 input no_result
        _ (first_state-Sound setup identity metered)

  after_begin-Lawful :
      (begun : Gate × Option Refusal)
      → Metered setup
      → LawfulReturn setup identity (after_begin setup identity input begun).1
  after_begin-Lawful (gate, some refusal) metered = tt
  after_begin-Lawful (gate, none) metered =
      admitted_run-Lawful gate setup.canceled_at_admission metered

guarded-Lawful :
    (setup : Setup) (identity : Identity) (b c : Bool) (gate : Gate) (r : Gate × Returned)
    → LawfulReturn setup identity r.1
    → LawfulReturn setup identity (guarded b c gate r).1
guarded-Lawful setup identity true c gate r h = tt
guarded-Lawful setup identity false true gate r h = tt
guarded-Lawful setup identity false false gate r h = h

-- Every effect of an admitted run on the world outside is lawful. Each call to the vendor carries an allowance
-- of at least one token and at most the configured output, and the tokens charged before it, the
-- estimate of its input and the allowance are together at most the token budget. Each execution is
-- of a registered tool, on arguments that the tool's declaration accepts and that its `Authorize` has
-- accepted for the run's identity. The configured amounts and the vendor's reports are below 2 ^ 62.
pub run-Lawful :
    (setup : Setup) (shared : Option Gate) (identity : Identity) (input : List Message)
    {gate : Gate} {s : State} {result : RunResult} {e : Option String}
    → Metered (defaulted setup)
    → run setup shared identity input ≡ (gate, ran s result e)
    → All (Lawful (defaulted setup) identity) s.effects
unfolding run
run-Lawful setup shared identity input metered h =
    subst (λ r. LawfulReturn (defaulted setup) identity r.1) h
      (guarded-Lawful (defaulted setup) identity (is_empty identity.user_id) _ _ _
        (after_begin-Lawful (defaulted setup) identity input _ metered))
