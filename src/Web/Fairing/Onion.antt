-- ===== src/Web/Fairing/Onion.antt =====
-- The order of calls in the pipeline of pkg/bear/bear.go.
use Prim.Native.String.{String}
use mathlib.Core.List.{append_assoc}
use gin_bear.Base.{
  ◌≡◌, refl, sym, subst, ap, ◌∙◌, Bool, true, false, Option, none, some, List, [], ◌∷◌, ◌++◌,
  if◌then◌else◌,
}
use gin_bear.Web.Fairing.{
  Reply, replies, fails, Fairing, Event, asks, Context, run_entered_request_fairings,
  run_entered_response_fairings,
}
use gin_bear.Web.Fairing.Pipeline.{
  App, Handler, opaque, compiled, global_request_fairings, unless_over, run_request_fairings,
  run_strict_global_fairings, run_pipeline_request_fairings, run_pipeline_response_fairings,
  write_if, finish, wrote, returned, handle, handled, run_pipeline, new_context,
}
use gin_bear.Web.Fairing.Chain.{
  asks_of, answers_of, asks_of-append, response_loop-calls, Moved, Moved-refl, Moved-trans, Asked,
  asked_all, asked_some, asked_failing, run_entered-Asked, Passes, passes_none, Passes-append,
}

module _ {W V : Type 0} (app : App W V) where
  abbrev globals : List (Fairing W V)
  globals = global_request_fairings app.request_fairings

  -- The fairings of a route in the order in which they are to be asked.
  abbrev pub configured : List (Fairing W V) → List (Fairing W V)
  configured route = if app.strict then globals ++ route else route ++ globals

  Asked-append :
      {ctx mid : Context W V} (fs gs : List (Fairing W V)) {r : Context W V × Option String}
      → Moved ctx mid fs (asks_of fs)
      → Passes app.terminal ctx.world fs mid.world
      → Asked app.terminal mid gs r
      → Asked app.terminal ctx (fs ++ gs) r
  Asked-append {ctx} fs gs m first (asked_all {ctx'} m' run) =
      asked_all
        (subst (λ l. Moved ctx ctx' (fs ++ gs) l) (sym (asks_of-append fs gs)) (Moved-trans m m'))
        (Passes-append app.terminal first run)
  Asked-append {ctx} fs gs m first (asked_some {ctx'} p rest split m' run over) =
      asked_some (fs ++ p) rest (ap (λ xs. fs ++ xs) split ∙ sym (append_assoc fs p rest))
        (subst (λ l. Moved ctx ctx' (fs ++ p) l) (sym (asks_of-append fs p)) (Moved-trans m m'))
        (Passes-append app.terminal first run) over
  Asked-append {ctx} fs gs m first (asked_failing {ctx'} p f rest text split m' run on failed) =
      asked_failing (fs ++ p) f rest text
        (ap (λ xs. fs ++ xs) split ∙ sym (append_assoc fs p (f ∷ rest)))
        (subst (λ l. Moved ctx ctx' (fs ++ p) l)
          (sym (append_assoc (asks_of fs) (asks_of p) _)
            ∙ ap (λ l. l ++ asks f.number ∷ []) (sym (asks_of-append fs p)))
          (Moved-trans m m'))
        (Passes-append app.terminal first run) on failed

  chained-Asked :
      {ctx : Context W V} (fs gs : List (Fairing W V))
      (next : Context W V → Context W V × Option String) {r : Context W V × Option String}
      → ((mid : Context W V) → Asked app.terminal mid gs (next mid))
      → Asked app.terminal ctx fs r
      → Asked app.terminal ctx (fs ++ gs) (unless_over app next r)
  chained-Asked {ctx} fs gs next asks_next (asked_all {ctx'} m run) = go _ refl
    where
      go :
          (b : Bool)
          → app.terminal ctx'.world ≡ b
          → Asked app.terminal ctx (fs ++ gs) (if b then (ctx', none) else next ctx')
      go true over = asked_some fs gs refl m run over
      go false on = Asked-append fs gs m run (asks_next ctx')
  chained-Asked fs gs next asks_next (asked_some p rest split m run over) =
      rw over
        (asked_some p (rest ++ gs) (ap (λ xs. xs ++ gs) split ∙ append_assoc p rest gs) m run over)
  chained-Asked fs gs next asks_next (asked_failing p f rest text split m run on failed) =
      asked_failing p f (rest ++ gs) text (ap (λ xs. xs ++ gs) split ∙ append_assoc p (f ∷ rest) gs)
        m run on failed

  marked-Moved :
      {ctx ctx' : Context W V} {p : List (Fairing W V)} {log : List Event}
      → Moved (record ctx { global_started = true }) ctx' p log
      → Moved ctx ctx' p log
  marked-Moved m = record {
    entered = m.entered;
    logged = m.logged;
    response_run = m.response_run;
    completed = m.completed;
  }

  marked-Asked :
      {ctx : Context W V} {fs : List (Fairing W V)} {r : Context W V × Option String}
      → Asked app.terminal (record ctx { global_started = true }) fs r
      → Asked app.terminal ctx fs r
  marked-Asked (asked_all m run) = asked_all (marked-Moved m) run
  marked-Asked (asked_some p rest split m run over) =
      asked_some p rest split (marked-Moved m) run over
  marked-Asked (asked_failing p f rest text split m run on failed) =
      asked_failing p f rest text split (marked-Moved m) run on failed

  requests-Asked :
      (route : List (Fairing W V)) (ctx : Context W V)
      → ctx.global_started ≡ false
      → Asked app.terminal ctx (configured route) (run_pipeline_request_fairings app route ctx)
  unfolding run_pipeline_request_fairings
  requests-Asked route ctx fresh = go app.strict
    where
      strictly :
          (b : Bool)
          → app.terminal ctx.world ≡ b
          → Asked app.terminal ctx (globals ++ route) (
              if b
              then (ctx, none)
              else unless_over app
                  (run_entered_request_fairings app.terminal route)
                  (run_strict_global_fairings app ctx))
      strictly true over = asked_some [] (globals ++ route) refl (Moved-refl ctx) passes_none over
      strictly false on = rw on (
          rw fresh (
            chained-Asked globals route _ (run_entered-Asked app.terminal route) (
              marked-Asked
                (run_entered-Asked app.terminal globals (record ctx { global_started = true })))))

      go :
          (strict : Bool)
          → Asked app.terminal ctx (if strict then globals ++ route else route ++ globals) (
              if strict
              then (if app.terminal ctx.world
                  then (ctx, none)
                  else unless_over app
                      (run_entered_request_fairings app.terminal route)
                      (run_strict_global_fairings app ctx))
              else run_request_fairings app route ctx)
      go true = strictly _ refl
      go false =
          chained-Asked route globals _ (run_entered-Asked app.terminal globals)
            (run_entered-Asked app.terminal route ctx)

  -- No response has run for the request.
  record Unanswered (ctx : Context W V) : Type 0 where
    pub not_run : ctx.response_run ≡ false
    pub not_completed : ctx.completed ≡ false

  -- Where the responses run, and that they run once.
  response-log :
      (v : V) (ctx : Context W V)
      → Unanswered ctx
      → ((run_pipeline_response_fairings app v ctx).0.log ≡ ctx.log ++ answers_of ctx.entered)
        × ((run_pipeline_response_fairings app v ctx).0.completed ≡ true)
  unfolding run_pipeline_response_fairings run_entered_response_fairings
  response-log v ctx u =
      rw u.not_completed
        (rw u.not_run (ap (λ es. ctx.log ++ es) (response_loop-calls v ctx.entered), refl))

  write_if-log : (o : Option String) (ctx : Context W V) → (write_if app o ctx).log ≡ ctx.log
  write_if-log none ctx = refl
  write_if-log (some text) ctx = refl

  finish-log :
      (ctx : Context W V)
      → Unanswered ctx
      → (finish app ctx).log ≡ ctx.log ++ answers_of ctx.entered
  unfolding finish
  finish-log ctx u = write_if-log _ _ ∙ (response-log app.nil ctx u).0

  finish-completed : (ctx : Context W V) → ctx.completed ≡ true → (finish app ctx).log ≡ ctx.log
  unfolding finish run_pipeline_response_fairings
  finish-completed ctx done = rw done refl

  wrote-log :
      (out : Context W V × (V × Option String))
      → out.0.completed ≡ true
      → (finish app (wrote app out)).log ≡ out.0.log
  wrote-log (ctx, (v, none)) done = finish-completed _ done
  wrote-log (ctx, (v, some text)) done = finish-completed _ done

  -- Whatever the handler does, the entered fairings answer, once.
  handled-log :
      (h : Handler W V) (ctx : Context W V) (o : Option String)
      → Unanswered ctx
      → (finish app (handled app h (ctx, o))).log ≡ ctx.log ++ answers_of ctx.entered
  handled-log h ctx (some text) u =
      finish-log _ (record { not_run = u.not_run; not_completed = u.not_completed })
  handled-log h ctx none u = go (app.terminal ctx.world)
    where
      ready : (w : W) → Unanswered (record ctx { world = w })
      ready w = record { not_run = u.not_run; not_completed = u.not_completed }

      replied :
          (b : Bool) (w : W) (v : V)
          → (finish app (
              if b
              then record ctx { world = w }
              else wrote app (run_pipeline_response_fairings app v (record ctx { world = w })))).log
            ≡ ctx.log ++ answers_of ctx.entered
      replied true w v = finish-log _ (ready w)
      replied false w v =
          let (logged, done) = response-log v (record ctx { world = w }) (ready w) in
          wrote-log _ done ∙ logged

      back :
          (r : W × Reply V)
          → (finish app (returned app ctx r)).log ≡ ctx.log ++ answers_of ctx.entered
      back (w, fails text) = finish-log _ (ready _)
      back (w, replies v) = replied _ w v

      ran :
          (h : Handler W V)
          → (finish app (handle app h ctx)).log ≡ ctx.log ++ answers_of ctx.entered
      ran (opaque run) = finish-log _ (ready _)
      ran (compiled run) = back (run ctx.world)

      go :
          (b : Bool)
          → (finish app (if b then ctx else handle app h ctx)).log
            ≡ ctx.log ++ answers_of ctx.entered
      go true = finish-log ctx u
      go false = ran h

  -- The calls around one request that begins in the state `w`: all fairings were asked; or those up to
  -- one after which the request was over; or those up to one that failed. Then come the answers of all
  -- that were asked without an error, in reverse.
  pub data Onion (fs : List (Fairing W V)) (w : W) : List Event → Type 0 where
    all_asked :
        {log : List Event} {end : W}
        → Passes app.terminal w fs end
        → log ≡ asks_of fs ++ answers_of fs
        → Onion fs w log
    request_over :
        {log : List Event} {end : W} (p rest : List (Fairing W V))
        → fs ≡ p ++ rest
        → Passes app.terminal w p end
        → app.terminal end ≡ true
        → log ≡ asks_of p ++ answers_of p
        → Onion fs w log
    last_failed :
        {log : List Event} {before end : W} (p : List (Fairing W V)) (f : Fairing W V)
        (rest : List (Fairing W V)) (text : String)
        → fs ≡ p ++ f ∷ rest
        → Passes app.terminal w p before
        → app.terminal before ≡ false
        → f.on_request before ≡ (end, some text)
        → log ≡ (asks_of p ++ asks f.number ∷ []) ++ answers_of p
        → Onion fs w log

  closed_log :
      {w : W} {ctx : Context W V} (h : Handler W V) (p : List (Fairing W V)) (log : List Event)
      (o : Option String)
      → Moved (new_context w) ctx p log
      → (finish app (handled app h (ctx, o))).log ≡ log ++ answers_of p
  closed_log {ctx = ctx} h p log o m =
      handled-log h ctx o (record { not_run = m.response_run; not_completed = m.completed })
      ∙ ap (λ l. l ++ answers_of ctx.entered) m.logged
      ∙ ap (λ xs. log ++ answers_of xs) m.entered

  Asked-Onion :
      (h : Handler W V) (fs : List (Fairing W V)) (w : W) (r : Context W V × Option String)
      → Asked app.terminal (new_context w) fs r
      → Onion fs w (finish app (handled app h r)).log
  Asked-Onion h fs w _ (asked_all {ctx'} m run) = all_asked run (closed_log h fs _ none m)
  Asked-Onion h fs w _ (asked_some {ctx'} p rest split m run over) =
      request_over p rest split run over (closed_log h p _ none m)
  Asked-Onion h fs w _ (asked_failing {ctx'} p f rest text split m run on failed) =
      last_failed p f rest text split run on failed (closed_log h p _ (some text) m)

  -- Around a request that no fairing has seen, whatever the fairings and the handler do, on every path:
  -- the fairings are asked in their configured order, each on the state that the one before has left,
  -- and all of them unless one fails or the request is over; and those that were asked without an error
  -- answer, each exactly once, the last one first.
  pub run_pipeline-Onion :
      (h : Handler W V) (route : List (Fairing W V)) (w : W)
      → Onion (configured route) w (run_pipeline app h route (new_context w)).log
  unfolding run_pipeline
  run_pipeline-Onion h route w =
      Asked-Onion h (configured route) w _ (requests-Asked route (new_context w) refl)
