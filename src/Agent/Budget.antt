-- ===== src/Agent/Budget.antt =====
-- `Budget`, `Ledger` and `Gate` of tools.go. A Go map of counters is a function that is 0 where the
-- map has no entry; the mutexes make each call one step.
pub mod Admission
use Prim.Native.String.{String}
use text.Mathlib.Text.{◌==◌}
use gin_bear.Base.{ℕ, Bool, true, false, Option, none, some, if◌then◌else◌}
use gin_bear.Base.Int.{ℤ, pos, leb_ℤ, ltb_ℤ, add64, sub64}

-- `Budget`. Durations are in nanoseconds.
pub record Budget : Type 0 where
  pub max_rounds : ℤ
  pub max_tokens : ℤ
  pub reserve_tokens : ℤ
  pub max_output_tokens : ℤ
  pub total_timeout : ℤ
  pub tool_timeout : ℤ
  pub max_calls_per_tool : ℤ
  pub max_concurrent : ℤ
  pub max_user_calls : ℤ

-- `if v <= 0 { v = d }`.
abbrev pub positive_or : ℤ → ℕ → ℤ
positive_or v d = if leb_ℤ v (pos 0) then pos d else v

-- `withDefaults`.
unfoldable pub with_defaults : Budget → Budget
with_defaults b = record {
  max_rounds = positive_or b.max_rounds 8;
  max_tokens = positive_or b.max_tokens 20000;
  reserve_tokens = positive_or b.reserve_tokens 2000;
  max_output_tokens = positive_or b.max_output_tokens 1024;
  total_timeout = positive_or b.total_timeout 120000000000;
  tool_timeout = positive_or b.tool_timeout 20000000000;
  max_calls_per_tool = positive_or b.max_calls_per_tool 10;
  max_concurrent = positive_or b.max_concurrent 4;
  max_user_calls = positive_or b.max_user_calls 100;
}

abbrev pub Counters : Type 0
Counters = String → ℤ

-- `counters[key] = value`.
unfoldable pub put : String → ℤ → Counters → Counters
put key value counters = λ k. if key == k then value else counters k

pub record Ledger : Type 0 where
  pub tokens : ℤ
  pub calls : Counters
  pub budget : Budget
  pub exhausted : Bool

pub record Gate : Type 0 where
  pub inflight : Counters
  pub user_calls : Counters
  pub budget : Budget

pub data Refusal : Type 0 where
  too_many_runs quota_exhausted : Refusal

-- `NewGate`.
unfoldable pub new_gate : Budget → Gate
new_gate b = record { inflight = λ _. pos 0; user_calls = λ _. pos 0; budget = with_defaults b }

-- `g.inflight[user]++` and `g.userCalls[user]++`.
abbrev pub counted : String → Gate → Gate
counted user gate = record gate {
  inflight = put user (add64 (gate.inflight user) (pos 1)) gate.inflight;
  user_calls = put user (add64 (gate.user_calls user) (pos 1)) gate.user_calls;
}

-- `beginRun`.
unfoldable pub begin_run : String → Gate → Gate × Option Refusal
begin_run user gate =
    if leb_ℤ gate.budget.max_concurrent (gate.inflight user)
    then (gate, some too_many_runs)
    else if leb_ℤ gate.budget.max_user_calls (gate.user_calls user)
    then (gate, some quota_exhausted)
    else (counted user gate, none)

-- The function that `beginRun` returns.
unfoldable pub release : String → Gate → Gate
release user gate = record gate {
  inflight = put user (sub64 (gate.inflight user) (pos 1)) gate.inflight;
}

-- `chargeTokens`: the ledger after it, and whether the budget is exhausted.
unfoldable pub charge_tokens : ℤ → Bool → Ledger → Ledger × Bool
charge_tokens reported has_report ledger =
    let spend = if has_report then reported else ledger.budget.reserve_tokens in
    let charged = record ledger { tokens = add64 ledger.tokens spend } in
    if ltb_ℤ ledger.budget.max_tokens charged.tokens
    then (record charged { exhausted = true }, true)
    else (charged, false)

-- `chargeCall`: the ledger after it, and whether the cap of the tool is exceeded.
unfoldable pub charge_call : String → Ledger → Ledger × Bool
charge_call tool ledger =
    let count = add64 (ledger.calls tool) (pos 1) in
    (
      record ledger { calls = put tool count ledger.calls },
      ltb_ℤ ledger.budget.max_calls_per_tool count,
    )
