-- ===== src/Agent/Runner/Proposals.antt =====
-- The proposed calls of one answer, in `invoke` of runner.go.
use Prim.Native.String.{String}
use Prim.Native.String
use gin_bear.Base.{
  ℕ, ◌≡◌, refl, subst, Bool, true, false, inl, inr, Option, none, some, Option-cases, List, [], ◌∷◌,
  if◌then◌else◌,
}
use gin_bear.Agent.Schema.Check.{SchemaErr, Members, validate_tool_args}
use gin_bear.Agent.Budget.{Ledger, charge_call}
use gin_bear.Agent.Runner.{
  Identity, ToolCall, Message, RunResult, Executed, output, broke, Decoded, members, malformed,
  Tool, Setup, executes, State,
}
use gin_bear.Agent.Runner.Invoke.{
  Verdict, refuses, allows, judge, judge_decoded, judge_authorized, judge_validated,
  record_tool_call, invoke, after_verdict, charged_and_run, finish, refuse,
}
use gin_bear.Agent.Runner.Loop.{either_end, Step, invoke_all}
use gin_bear.Agent.Runner.Bounds.{Permitted, Solvent, Sound}

module _ (setup : Setup) (moment : ℕ) (identity : Identity) (call : ToolCall) where
  authorized-Permitted :
      (t tool : Tool) (given args : Members) (o : Option String)
      → setup.tools call.name ≡ some t
      → validate_tool_args t.declared given ≡ none
      → t.authorize moment identity given ≡ o
      → judge_authorized t given o ≡ allows tool args
      → Permitted setup identity moment call.name args
  authorized-Permitted t tool given args none e v a h =
      subst (Permitted setup identity moment call.name) (cc)
        record { tool = t; registered = e; valid = v; authorized = a }
  authorized-Permitted t tool given args (some error) e v a h = absurd (cc)

  validated-Permitted :
      (t tool : Tool) (given args : Members) (o : Option SchemaErr)
      → setup.tools call.name ≡ some t
      → validate_tool_args t.declared given ≡ o
      → judge_validated setup moment identity t given o ≡ allows tool args
      → Permitted setup identity moment call.name args
  validated-Permitted t tool given args none e v h =
      authorized-Permitted t tool given args _ e v refl h
  validated-Permitted t tool given args (some error) e v h = absurd (cc)

  decoded-Permitted :
      (t tool : Tool) (args : Members) (d : Decoded)
      → setup.tools call.name ≡ some t
      → judge_decoded setup moment identity t d ≡ allows tool args
      → Permitted setup identity moment call.name args
  decoded-Permitted t tool args (malformed e) found h = absurd (cc)
  decoded-Permitted t tool args (members given) found h =
      validated-Permitted t tool given args _ found refl h

  judge-Permitted :
      (tool : Tool) (args : Members)
      → judge setup moment identity call ≡ allows tool args
      → Permitted setup identity moment call.name args
  unfolding judge
  judge-Permitted tool args h = elim (Option-cases (setup.tools call.name)) [
    | inl e ↦ absurd (refused_ne (rw e at h))
    | inr (t, e) ↦ decoded-Permitted t tool args _ e (rw e at h)
  ]
    where
      refused_ne : {s d e : String} → refuses s d e ≡ allows tool args → ⊥
      refused_ne h = cc

record_tool_call-kept :
    (setup : Setup) (identity : Identity) (call : ToolCall) (status : String) (s : State)
    → Sound setup identity s
    → Sound setup identity (record_tool_call setup identity call status s)
unfolding record_tool_call
record_tool_call-kept setup identity call status s sound = record {
  solvent = sound.solvent;
  lawful = sound.lawful;
}

pub charge_call-kept :
    (setup : Setup) (tool : String) (ledger : Ledger)
    → Solvent setup ledger
    → Solvent setup (charge_call tool ledger).0
unfolding charge_call
charge_call-kept setup tool ledger solvent = record {
  same_budget = solvent.same_budget;
  some_spent = solvent.some_spent;
  within = solvent.within;
}

module _ (setup : Setup) (identity : Identity) (call : ToolCall) where
  finish-kept :
      (tool : Tool) (e : Executed) (s : State)
      → Sound setup identity s
      → Sound setup identity (finish setup identity call tool e s).0
  finish-kept tool (broke e) s sound = record_tool_call-kept setup identity call "error" s sound
  finish-kept tool (output out) s sound = record_tool_call-kept setup identity call "ok" s sound

  charged_and_run-kept :
      (tool : Tool) (args : Members) (s : State)
      → Permitted setup identity s.moment call.name args
      → Sound setup identity s
      → Sound setup identity (charged_and_run setup identity call tool args s).0
  charged_and_run-kept tool args s permitted sound =
      go (charge_call call.name s.ledger).1
        (charge_call-kept setup call.name s.ledger sound.solvent)
    where
      ledger : Ledger
      ledger = (charge_call call.name s.ledger).0

      e : String
      e = String.◌++◌ "tool " (String.◌++◌ (setup.quote call.name) " call cap exceeded")

      go :
          (over : Bool)
          → Solvent setup ledger
          → Sound setup identity
              (if over
                then refuse setup identity call "error" e e false (record s { ledger = ledger })
                else finish setup identity call tool (tool.execute s.moment args) (record s {
                  ledger = ledger;
                  effects = executes s.moment call.name args ∷ s.effects;
                })).0
      go true solvent =
          record_tool_call-kept setup identity call "error" _
            record { solvent = solvent; lawful = sound.lawful }
      go false solvent =
          finish-kept tool (tool.execute s.moment args) _
            record { solvent = solvent; lawful = (permitted, sound.lawful) }

  after_verdict-kept :
      (v : Verdict) (s : State)
      → judge setup s.moment identity call ≡ v
      → Sound setup identity s
      → Sound setup identity (after_verdict setup identity call v s).0
  after_verdict-kept (refuses status detail error) s e sound =
      record_tool_call-kept setup identity call status s sound
  after_verdict-kept (allows tool args) s e sound =
      charged_and_run-kept tool args s (judge-Permitted setup s.moment identity call tool args e)
        sound

  -- A proposed call keeps the effects lawful and the ledger within its budget.
  invoke-kept :
      (s : State) → Sound setup identity s → Sound setup identity (invoke setup identity call s).0
  unfolding invoke
  invoke-kept s sound =
      let after = after_verdict-kept _ s refl sound in
      record { solvent = after.solvent; lawful = after.lawful }

pub ended_or_rest :
    (P : State → Type 0) (o : Option RunResult) (s : State) (rest : State × Step)
    → P s
    → P rest.0
    → P (either_end s rest o).0
ended_or_rest P none s rest p q = q
ended_or_rest P (some ended) s rest p q = p

pub invoke_all-kept :
    (setup : Setup) (identity : Identity) (calls : List ToolCall) (messages : List Message)
    (result : RunResult) (s : State)
    → Sound setup identity s
    → Sound setup identity (invoke_all setup identity calls messages result s).0
unfolding invoke_all
invoke_all-kept setup identity [] messages result s sound = sound
invoke_all-kept setup identity (call ∷ calls) messages result s sound =
    let after = invoke-kept setup identity call s sound in
    ended_or_rest (Sound setup identity) _ _ _ after
      (invoke_all-kept setup identity calls _ _ _ after)
