-- ===== src/Web/Fairing.antt =====
-- The fairings around a handler: pkg/bear/fairing.go and the pipeline of pkg/bear/bear.go. What a
-- request is outside this state, and the value of a response, are any types.
pub mod Pipeline
pub mod Chain
pub mod Onion
mod Tests
use Prim.Native.String.{String}
use gin_bear.Base.{
  ℕ, not, Bool, true, false, Option, none, some, List, [], ◌∷◌, ◌++◌, if◌then◌else◌,
}

-- What `callResponseFairing` returns.
pub data Reply (V : Type 0) : Type 0 where
  replies : V → Reply V
  fails : String → Reply V

-- `Fairing`; a panic of its response is an error.
pub record Fairing (W V : Type 0) : Type 0 where
  pub number : ℕ
  pub is_auth : Bool
  pub on_request : W → W × Option String
  pub on_response : V → Reply V

pub data Event : Type 0 where
  asks answers : ℕ → Event

-- The request's context with `strictFairingState`, the mark of a completed response, and what was
-- called so far.
pub record Context (W V : Type 0) : Type 0 where
  pub world : W
  pub entered : List (Fairing W V)
  pub global_started : Bool
  pub response_run : Bool
  pub completed : Bool
  pub log : List Event

module _ {W V : Type 0} where
  abbrev pub asked : Fairing W V → W → Context W V → Context W V
  asked f w ctx = record ctx { world = w; log = ctx.log ++ asks f.number ∷ [] }

  abbrev pub enter : Fairing W V → Context W V → Context W V
  enter f ctx = record ctx { entered = ctx.entered ++ f ∷ [] }

  module _ (terminal : W → Bool) where
    -- The loop of `runEnteredRequestFairings`.
    unfoldable pub request_loop : List (Fairing W V) → Context W V → Context W V × Option String
    request_loop [] ctx = (ctx, none)
    request_loop (f ∷ fs) ctx =
        let answer = f.on_request ctx.world in
        let rest = request_loop fs (enter f (asked f answer.0 ctx)) in
        if terminal ctx.world then (ctx, none) else elim answer.1 [
          | some text ↦ (asked f answer.0 ctx, some text)
          | none ↦ if terminal answer.0 then (enter f (asked f answer.0 ctx), none) else rest
        ]

    -- `runEnteredRequestFairings`.
    unfoldable pub run_entered_request_fairings :
        List (Fairing W V) → Context W V → Context W V × Option String
    run_entered_request_fairings fs ctx =
        if terminal ctx.world then (ctx, none) else request_loop fs ctx

-- The responses of the entered fairings, the last one first: the value, the first error, and the calls.
pub record Responses (V : Type 0) : Type 0 where
  pub value : V
  pub err : Option String
  pub calls : List Event

abbrev pub first_of : Option String → String → Option String
first_of none text = some text
first_of (some earlier) text = some earlier

abbrev pub answered : {V : Type 0} → ℕ → Responses V → Reply V → Responses V
answered n r (replies v) = record { value = v; err = r.err; calls = r.calls ++ answers n ∷ [] }
answered n r (fails text) = record {
  value = r.value;
  err = first_of r.err text;
  calls = r.calls ++ answers n ∷ [];
}

module _ {W V : Type 0} where
  -- The loop of `runEnteredResponseFairings`.
  unfoldable pub response_loop : V → List (Fairing W V) → Responses V
  response_loop v [] = record { value = v; err = none; calls = [] }
  response_loop v (f ∷ fs) =
      let later = response_loop v fs in answered f.number later (f.on_response later.value)

  -- `runEnteredResponseFairings`.
  unfoldable pub run_entered_response_fairings : V → Context W V → Context W V × (V × Option String)
  run_entered_response_fairings v ctx =
      let r = response_loop v ctx.entered in
      if ctx.response_run
      then (ctx, (v, none))
      else (record ctx { response_run = true; log = ctx.log ++ r.calls }, (r.value, r.err))
