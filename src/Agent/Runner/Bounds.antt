-- ===== src/Agent/Runner/Bounds.antt =====
-- The effects that a run of runner.go is allowed, and the ledger of tools.go under them.
use Prim.Native.String.{String}
use gin_bear.Base.{
  ℕ, ◌+◌, ◌-◌, ◌≤◌, ◌<◌, ◌^◌, ◌≡◌, refl, subst, Bool, true, false, Option, none, some, List,
  if◌then◌else◌, All, arith,
}
use gin_bear.Base.Int.{ℤ, pos, negsuc, pos_part, leb_ℤ, ltb_ℤ, ◌≤ℤ◌, ◌+ℤ◌, ◌-ℤ◌, wrap, add64, sub64}
use gin_bear.Agent.Schema.Check.{Members, validate_tool_args}
use gin_bear.Agent.Budget.{Budget, Ledger, charge_tokens}
use gin_bear.Agent.Runner.{Identity, Message, Tool, answers, Setup, Effect, dials, executes, State}
use gin_bear.Agent.Runner.Turn.{estimate_tokens, capped, stream_allowance, model_usage}

-- A call to the vendor: an answer of at least one token is allowed, at most the configured output,
-- and what was spent, the estimate of the input and the answer fit the budget together.
pub record Fits (budget : Budget) (messages : List Message) (spent allowance : ℤ) : Type 0 where
  pub some_output : pos 1 ≤ℤ allowance
  pub output_cap : allowance ≤ℤ budget.max_output_tokens
  pub total_cap :
      pos_part spent + estimate_tokens messages + pos_part allowance ≤ pos_part budget.max_tokens

-- An execution: of a registered tool, on arguments of its shape, by an identity it lets.
pub record Permitted (setup : Setup) (identity : Identity) (moment : ℕ) (name : String)
    (args : Members) : Type 0 where
  pub tool : Tool
  pub registered : setup.tools name ≡ some tool
  pub valid : validate_tool_args tool.declared args ≡ none
  pub authorized : tool.authorize moment identity args ≡ none

abbrev pub Lawful : Setup → Identity → Effect → Type 0
Lawful setup identity (dials messages spent allowance) = Fits setup.budget messages spent allowance
Lawful setup identity (executes moment name args) = Permitted setup identity moment name args

-- Amounts that a ledger can add.
abbrev pub IsAmount : ℤ → Type 0
IsAmount z = (pos 0 ≤ℤ z) × (pos_part z < 2 ^ 62)

-- The configured budget and the vendor's reports are such amounts.
pub record Metered (setup : Setup) : Type 0 where
  pub max_tokens : IsAmount setup.budget.max_tokens
  pub reserve : IsAmount setup.budget.reserve_tokens
  pub reports :
      (round : ℕ) (messages : List Message) (allowance : ℤ) (m : Message)
      → setup.generate round messages allowance ≡ answers (some m)
      → IsAmount (model_usage m.usage).tokens

-- A ledger that has spent at most its budget.
pub record Solvent (setup : Setup) (ledger : Ledger) : Type 0 where
  pub same_budget : ledger.budget ≡ setup.budget
  pub some_spent : pos 0 ≤ℤ ledger.tokens
  pub within : ledger.tokens ≤ℤ setup.budget.max_tokens

pub record Sound (setup : Setup) (identity : Identity) (s : State) : Type 0 where
  pub solvent : Solvent setup s.ledger
  pub lawful : All (Lawful setup identity) s.effects

sub64_below :
    (a b : ℤ) → IsAmount a → pos 0 ≤ℤ b → b ≤ℤ a → sub64 a b ≡ pos (pos_part a - pos_part b)
unfolding sub64 wrap ◌-ℤ◌ ◌+ℤ◌
sub64_below a b m h k = ground arith

capped-eq-some :
    (limit left a : ℤ) → capped limit left ≡ some a → (pos 1 ≤ℤ a) × (a ≤ℤ limit) × (a ≤ℤ left)
unfolding capped ltb_ℤ
capped-eq-some limit left a h =
    go (if ltb_ℤ left limit then left else limit) (ground arith) (ground arith) _ refl h
  where
    go :
        (least : ℤ)
        → least ≤ℤ limit
        → least ≤ℤ left
        → (c : Bool) → ltb_ℤ least (pos 1) ≡ c
        → ◌≡◌ {A = Option ℤ} (if c then none else some least) (some a)
        → (pos 1 ≤ℤ a) × (a ≤ℤ limit) × (a ≤ℤ left)
    go least x y true e h = absurd (cc)
    go least x y false e h =
        subst (λ z. (pos 1 ≤ℤ z) × (z ≤ℤ limit) × (z ≤ℤ left)) (cc)
          ((unfold ltb_ℤ in ground arith), x, y)

fewer : (x y : ℤ) → IsAmount x → IsAmount (pos (pos_part x - pos_part y))
fewer x y m = omega arith

below : (x y : ℤ) → leb_ℤ x y ≡ false → y ≤ℤ x
below x y h = unfold leb_ℤ in ground arith

all_three :
    (x y a : ℤ) (n : ℕ)
    → pos 1 ≤ℤ a
    → pos n ≤ℤ pos (pos_part x - pos_part y)
    → a ≤ℤ pos (pos_part x - pos_part y - n)
    → pos_part y + n + pos_part a ≤ pos_part x
all_three x y (pos m) n one k l = omega arith
all_three x y (negsuc m) n one k l = omega arith

pub stream_allowance-Fits :
    (setup : Setup) (ledger : Ledger) (messages : List Message) (a : ℤ)
    → IsAmount setup.budget.max_tokens
    → Solvent setup ledger
    → stream_allowance setup.budget ledger messages ≡ some a
    → Fits setup.budget messages ledger.tokens a
unfolding stream_allowance
stream_allowance-Fits setup ledger messages a m solvent h =
    let left =
      sub64_below setup.budget.max_tokens ledger.tokens m solvent.some_spent solvent.within in
    go _ left m solvent.some_spent solvent.within _ _ refl refl h
  where
    go :
        (remaining : ℤ)
        → remaining ≡ pos (pos_part setup.budget.max_tokens - pos_part ledger.tokens)
        → IsAmount setup.budget.max_tokens
        → pos 0 ≤ℤ ledger.tokens
        → ledger.tokens ≤ℤ setup.budget.max_tokens
        → (b c : Bool) → leb_ℤ remaining (pos 0) ≡ b
        → leb_ℤ remaining (pos (estimate_tokens messages)) ≡ c
        → ◌≡◌ {A = Option ℤ}
            (if b
              then none
              else if c
              then none
              else capped setup.budget.max_output_tokens
                  (sub64 remaining (pos (estimate_tokens messages))))
            (some a)
        → Fits setup.budget messages ledger.tokens a
    go remaining r m p w true c e f h = absurd (cc)
    go remaining r m p w false true e f h = absurd (cc)
    go remaining r m p w false false e f h =
        let amount : IsAmount remaining = rw r (fewer setup.budget.max_tokens ledger.tokens m) in
        let left =
          sub64_below remaining (pos (estimate_tokens messages)) amount (omega arith)
            (below remaining _ f) in
        let (one, cap, rest) = capped-eq-some _ _ a h in
        record {
          some_output = one;
          output_cap = cap;
          total_cap =
              all_three setup.budget.max_tokens ledger.tokens a (estimate_tokens messages) one
                (subst (λ z. pos (estimate_tokens messages) ≤ℤ z) r (below remaining _ f))
                (subst (λ z. a ≤ℤ pos (pos_part z - estimate_tokens messages)) r
                  (subst (λ z. a ≤ℤ z) left rest));
        }

add64_amounts : (a b : ℤ) → IsAmount a → IsAmount b → pos 0 ≤ℤ add64 a b
unfolding add64 wrap ◌+ℤ◌ ◌-ℤ◌
add64_amounts a b h k = ground arith

spend_amount : (b : Bool) (x y : ℤ) → IsAmount x → IsAmount y → IsAmount (if b then x else y)
spend_amount true x y h k = h
spend_amount false x y h k = k

spent_amount : (limit z : ℤ) → IsAmount limit → pos 0 ≤ℤ z → z ≤ℤ limit → IsAmount z
spent_amount limit (pos m) a n h = omega arith
spent_amount limit (negsuc m) a n h = omega arith

not_more : (a b : ℤ) → ltb_ℤ a b ≡ false → b ≤ℤ a
not_more a b h = unfold ltb_ℤ in ground arith

pub charge_tokens-within :
    (setup : Setup) (tokens : ℤ) (has_report : Bool) (ledger : Ledger)
    → Metered setup
    → IsAmount tokens
    → Solvent setup ledger
    → (charge_tokens tokens has_report ledger).1 ≡ false
    → Solvent setup (charge_tokens tokens has_report ledger).0
unfolding charge_tokens
charge_tokens-within setup tokens has_report ledger metered amount solvent h =
    go _ refl (add64_amounts ledger.tokens spend spent (spend_amount has_report _ _ amount reserve))
      h
  where
    spend : ℤ
    spend = if has_report then tokens else ledger.budget.reserve_tokens

    total : ℤ
    total = add64 ledger.tokens spend

    spent : IsAmount ledger.tokens
    spent =
        spent_amount setup.budget.max_tokens ledger.tokens metered.max_tokens solvent.some_spent
          solvent.within

    reserve : IsAmount ledger.budget.reserve_tokens
    reserve = rw solvent.same_budget metered.reserve

    charged : Bool → Ledger × Bool
    charged over =
        if over
        then (record ledger { tokens = total; exhausted = true }, true)
        else (record ledger { tokens = total }, false)

    go :
        (over : Bool)
        → ltb_ℤ ledger.budget.max_tokens total ≡ over
        → pos 0 ≤ℤ total
        → (charged over).1 ≡ false
        → Solvent setup (charged over).0
    go true e n h = absurd (cc)
    go false e n h = record {
      same_budget = solvent.same_budget;
      some_spent = n;
      within =
          subst (λ b. total ≤ℤ b.max_tokens) solvent.same_budget
            (not_more ledger.budget.max_tokens total e);
    }
