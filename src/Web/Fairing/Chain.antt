-- ===== src/Web/Fairing/Chain.antt =====
-- A chain of requests of pkg/bear/fairing.go.
use Prim.Native.String.{String}
use mathlib.Core.List.{append_assoc, append-nil}
use gin_bear.Base.{
  ◌≡◌, refl, sym, ap, ◌∙◌, Bool, true, false, Option, none, some, List, [], ◌∷◌, ◌++◌,
  if◌then◌else◌,
}
use gin_bear.Web.Fairing.{
  Reply, replies, fails, Fairing, Event, asks, answers, Context, asked, enter, request_loop,
  run_entered_request_fairings, answered, Responses, response_loop,
}

module _ {W V : Type 0} where
  -- The requests of some fairings, in order, and their responses, in reverse.
  abbrev pub asks_of : List (Fairing W V) → List Event
  asks_of [] = []
  asks_of (f ∷ fs) = asks f.number ∷ asks_of fs

  abbrev pub answers_of : List (Fairing W V) → List Event
  answers_of [] = []
  answers_of (f ∷ fs) = answers_of fs ++ answers f.number ∷ []

  pub asks_of-append : (fs gs : List (Fairing W V)) → asks_of (fs ++ gs) ≡ asks_of fs ++ asks_of gs
  asks_of-append [] gs = refl
  asks_of-append (f ∷ fs) gs = ap (λ es. asks f.number ∷ es) (asks_of-append fs gs)

  pub response_loop-calls :
      (v : V) (fs : List (Fairing W V)) → (response_loop v fs).calls ≡ answers_of fs
  unfolding response_loop
  response_loop-calls v [] = refl
  response_loop-calls v (f ∷ fs) = go _ _ (response_loop-calls v fs)
    where
      go :
          (r : Responses V) (reply : Reply V)
          → r.calls ≡ answers_of fs
          → (answered f.number r reply).calls ≡ answers_of fs ++ answers f.number ∷ []
      go r (replies w) h = ap (λ es. es ++ answers f.number ∷ []) h
      go r (fails text) h = ap (λ es. es ++ answers f.number ∷ []) h

  -- What some requests have added to a context.
  pub record Moved (ctx ctx' : Context W V) (p : List (Fairing W V)) (log : List Event)
      : Type 0 where
    pub entered : ctx'.entered ≡ ctx.entered ++ p
    pub logged : ctx'.log ≡ ctx.log ++ log
    pub response_run : ctx'.response_run ≡ ctx.response_run
    pub completed : ctx'.completed ≡ ctx.completed

  pub Moved-refl : (ctx : Context W V) → Moved ctx ctx [] []
  Moved-refl ctx = record {
    entered = sym (append-nil ctx.entered);
    logged = sym (append-nil ctx.log);
    response_run = refl;
    completed = refl;
  }

  pub Moved-trans :
      {ctx mid end : Context W V} {p q : List (Fairing W V)} {l l' : List Event}
      → Moved ctx mid p l
      → Moved mid end q l'
      → Moved ctx end (p ++ q) (l ++ l')
  Moved-trans {ctx} {mid} {end} {p} {q} {l} {l'} m m' = record {
    entered = m'.entered ∙ ap (λ xs. xs ++ q) m.entered ∙ append_assoc ctx.entered p q;
    logged = m'.logged ∙ ap (λ xs. xs ++ l') m.logged ∙ append_assoc ctx.log l l';
    response_run = m'.response_run ∙ m.response_run;
    completed = m'.completed ∙ m.completed;
  }

  module _ (terminal : W → Bool) where
    -- Fairings that are asked one after the other, from one state of the request to another: none
    -- fails, and the request is not over before any of them.
    pub data Passes : W → List (Fairing W V) → W → Type 0 where
      passes_none : {w : W} → Passes w [] w
      passes :
          {w next end : W} {f : Fairing W V} {fs : List (Fairing W V)}
          → terminal w ≡ false
          → f.on_request w ≡ (next, none)
          → Passes next fs end
          → Passes w (f ∷ fs) end

    pub Passes-append :
        {w mid end : W} {fs gs : List (Fairing W V)}
        → Passes w fs mid
        → Passes mid gs end
        → Passes w (fs ++ gs) end
    Passes-append passes_none h = h
    Passes-append (passes on next p) h = passes on next (Passes-append p h)

    -- How a chain of requests ends.
    pub data Asked (ctx : Context W V) (fs : List (Fairing W V))
        : Context W V × Option String → Type 0 where
      asked_all :
          {ctx' : Context W V}
          → Moved ctx ctx' fs (asks_of fs)
          → Passes ctx.world fs ctx'.world
          → Asked ctx fs (ctx', none)
      asked_some :
          {ctx' : Context W V} (p rest : List (Fairing W V))
          → fs ≡ p ++ rest
          → Moved ctx ctx' p (asks_of p)
          → Passes ctx.world p ctx'.world
          → terminal ctx'.world ≡ true
          → Asked ctx fs (ctx', none)
      asked_failing :
          {ctx' : Context W V} (p : List (Fairing W V)) (f : Fairing W V)
          (rest : List (Fairing W V)) (text : String) {before : W}
          → fs ≡ p ++ f ∷ rest
          → Moved ctx ctx' p (asks_of p ++ asks f.number ∷ [])
          → Passes ctx.world p before
          → terminal before ≡ false
          → f.on_request before ≡ (ctx'.world, some text)
          → Asked ctx fs (ctx', some text)

    entered_one :
        (f : Fairing W V) (w : W) (ctx : Context W V)
        → Moved ctx (enter f (asked f w ctx)) (f ∷ []) (asks f.number ∷ [])
    entered_one f w ctx = record {
      entered = refl;
      logged = refl;
      response_run = refl;
      completed = refl;
    }

    later-Asked :
        {ctx mid : Context W V} {fs : List (Fairing W V)} {r : Context W V × Option String}
        (f : Fairing W V)
        → terminal ctx.world ≡ false
        → f.on_request ctx.world ≡ (mid.world, none)
        → Moved ctx mid (f ∷ []) (asks f.number ∷ [])
        → Asked mid fs r
        → Asked ctx (f ∷ fs) r
    later-Asked f on next m (asked_all m' run) = asked_all (Moved-trans m m') (passes on next run)
    later-Asked f on next m (asked_some p rest split m' run over) =
        asked_some (f ∷ p) rest (ap (λ xs. f ∷ xs) split) (Moved-trans m m') (passes on next run)
          over
    later-Asked f on next m (asked_failing p g rest text split m' run still failed) =
        asked_failing (f ∷ p) g rest text (ap (λ xs. f ∷ xs) split) (Moved-trans m m')
          (passes on next run) still failed

    request_loop-Asked :
        (fs : List (Fairing W V)) (ctx : Context W V) → Asked ctx fs (request_loop terminal fs ctx)
    unfolding request_loop
    request_loop-Asked [] ctx = asked_all (Moved-refl ctx) passes_none
    request_loop-Asked (f ∷ fs) ctx =
        begun _ refl (f.on_request ctx.world) refl
          (λ w. request_loop-Asked fs (enter f (asked f w ctx)))
      where
        reached :
            (w : W) (rest : Context W V × Option String)
            → terminal ctx.world ≡ false
            → f.on_request ctx.world ≡ (w, none)
            → (b : Bool) → terminal w ≡ b
            → Asked (enter f (asked f w ctx)) fs rest
            → Asked ctx (f ∷ fs) (if b then (enter f (asked f w ctx), none) else rest)
        reached w rest on next true over h =
            asked_some (f ∷ []) fs refl (entered_one f w ctx) (passes on next passes_none) over
        reached w rest on next false still h = later-Asked f on next (entered_one f w ctx) h

        answered_by :
            (w : W) (o : Option String) (rest : Context W V × Option String)
            → terminal ctx.world ≡ false
            → f.on_request ctx.world ≡ (w, o)
            → Asked (enter f (asked f w ctx)) fs rest
            → Asked ctx (f ∷ fs) (elim o [
              | some text ↦ (asked f w ctx, some text)
              | none ↦ if terminal w then (enter f (asked f w ctx), none) else rest
            ])
        answered_by w (some text) rest on failed h =
            asked_failing [] f fs text refl
              (record {
                entered = sym (append-nil ctx.entered);
                logged = refl;
                response_run = refl;
                completed = refl;
              })
              passes_none on failed
        answered_by w none rest on next h = reached w rest on next _ refl h

        begun :
            (b : Bool)
            → terminal ctx.world ≡ b
            → (answer : W × Option String) → f.on_request ctx.world ≡ answer
            → ((w : W)
                → Asked
                    (enter f (asked f w ctx))
                    fs
                    (request_loop terminal fs (enter f (asked f w ctx))))
            → Asked ctx (f ∷ fs) (
                if b then (ctx, none) else elim answer.1 [
                  | some text ↦ (asked f answer.0 ctx, some text)
                  | none ↦
                      if terminal answer.0
                      then (enter f (asked f answer.0 ctx), none)
                      else request_loop terminal fs (enter f (asked f answer.0 ctx))
                ])
        begun true over answer same ih =
            asked_some [] (f ∷ fs) refl (Moved-refl ctx) passes_none over
        begun false on (w, o) same ih = answered_by w o _ on same (ih w)

    pub run_entered-Asked :
        (fs : List (Fairing W V)) (ctx : Context W V)
        → Asked ctx fs (run_entered_request_fairings terminal fs ctx)
    unfolding run_entered_request_fairings
    run_entered-Asked fs ctx = go _ refl (request_loop-Asked fs ctx)
      where
        go :
            (b : Bool)
            → terminal ctx.world ≡ b
            → Asked ctx fs (request_loop terminal fs ctx)
            → Asked ctx fs (if b then (ctx, none) else request_loop terminal fs ctx)
        go true over h = asked_some [] fs refl (Moved-refl ctx) passes_none over
        go false on h = h
