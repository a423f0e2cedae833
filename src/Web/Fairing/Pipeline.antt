-- ===== src/Web/Fairing/Pipeline.antt =====
-- `compilePipeline` of pkg/bear/bear.go and what it calls.
use Prim.Native.String.{String}
use gin_bear.Base.{Bool, true, false, Option, none, some, List, [], ◌∷◌, if◌then◌else◌}
use gin_bear.Web.Fairing.{
  Reply, replies, fails, Fairing, Context, run_entered_request_fairings,
  run_entered_response_fairings,
}

-- The application and gin: the mode, the global fairings, whether a request is aborted or written, and
-- what writing an error or a value does.
pub record App (W V : Type 0) : Type 0 where
  pub strict : Bool
  pub request_fairings : List (Fairing W V)
  pub terminal : W → Bool
  pub write_error : String → W → W
  pub write_success : V → W → W
  pub nil : V

-- A handler: one that gin runs, or one that returns a value or an error.
pub data Handler (W V : Type 0) : Type 0 where
  opaque : (W → W) → Handler W V
  compiled : (W → W × Reply V) → Handler W V

module _ {W V : Type 0} where
  -- `globalRequestFairings`.
  unfoldable pub global_request_fairings : List (Fairing W V) → List (Fairing W V)
  global_request_fairings [] = []
  global_request_fairings (f ∷ fs) =
      let rest = global_request_fairings fs in if f.is_auth then rest else f ∷ rest

  module _ (app : App W V) where
    -- `if err != nil { return err }; if requestFairingTerminal(ctx) { return nil }`.
    abbrev pub unless_over :
        (Context W V → Context W V × Option String)
        → Context W V × Option String
        → Context W V × Option String
    unless_over next (ctx, some text) = (ctx, some text)
    unless_over next (ctx, none) = if app.terminal ctx.world then (ctx, none) else next ctx

    -- `runRequestFairings`.
    abbrev pub run_request_fairings : List (Fairing W V) → Context W V → Context W V × Option String
    run_request_fairings route ctx =
        unless_over
          (run_entered_request_fairings app.terminal (global_request_fairings app.request_fairings))
          (run_entered_request_fairings app.terminal route ctx)

    -- `runStrictGlobalFairings`.
    abbrev pub run_strict_global_fairings : Context W V → Context W V × Option String
    run_strict_global_fairings ctx =
        if app.terminal ctx.world
        then (ctx, none)
        else if ctx.global_started
        then (ctx, none)
        else run_entered_request_fairings app.terminal
            (global_request_fairings app.request_fairings) (record ctx { global_started = true })

    -- `runPipelineRequestFairings`.
    unfoldable pub run_pipeline_request_fairings :
        List (Fairing W V) → Context W V → Context W V × Option String
    run_pipeline_request_fairings route ctx =
        if app.strict
        then (if app.terminal ctx.world
            then (ctx, none)
            else unless_over (run_entered_request_fairings app.terminal route)
                (run_strict_global_fairings ctx))
        else run_request_fairings route ctx

    -- `runPipelineResponseFairings`.
    unfoldable pub run_pipeline_response_fairings :
        V → Context W V → Context W V × (V × Option String)
    run_pipeline_response_fairings v ctx =
        if ctx.completed
        then (ctx, (v, none))
        else run_entered_response_fairings v (record ctx { completed = true })

    abbrev pub write : (W → W) → Context W V → Context W V
    write f ctx = record ctx { world = f ctx.world }

    abbrev pub write_if : Option String → Context W V → Context W V
    write_if none ctx = ctx
    write_if (some text) ctx = write (app.write_error text) ctx

    -- `finishNativeGinResponseFairings`, deferred.
    unfoldable pub finish : Context W V → Context W V
    finish ctx = let out = run_pipeline_response_fairings app.nil ctx in write_if out.1.1 out.0

    abbrev pub wrote : Context W V × (V × Option String) → Context W V
    wrote (ctx, (v, none)) = write (app.write_success v) ctx
    wrote (ctx, (v, some text)) = write (app.write_error text) ctx

    abbrev pub returned : Context W V → W × Reply V → Context W V
    returned ctx (w, fails text) = record ctx { world = app.write_error text w }
    returned ctx (w, replies v) =
        let after = record ctx { world = w } in
        if app.terminal w then after else wrote (run_pipeline_response_fairings v after)

    abbrev pub handle : Handler W V → Context W V → Context W V
    handle (opaque run) ctx = write run ctx
    handle (compiled run) ctx = returned ctx (run ctx.world)

    abbrev pub handled : Handler W V → Context W V × Option String → Context W V
    handled h (ctx, some text) = write (app.write_error text) ctx
    handled h (ctx, none) = if app.terminal ctx.world then ctx else handle h ctx

    -- The function that `compilePipeline` returns.
    unfoldable pub run_pipeline : Handler W V → List (Fairing W V) → Context W V → Context W V
    run_pipeline h route ctx = finish (handled h (run_pipeline_request_fairings route ctx))

  -- A request that no fairing has seen.
  abbrev pub new_context : W → Context W V
  new_context w = record {
    world = w;
    entered = [];
    global_started = false;
    response_run = false;
    completed = false;
    log = [];
  }
