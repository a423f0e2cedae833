-- ===== src/Web/Plugin/Winner.antt =====
-- What `match` of pkg/bear/plugin.go answers.
use mathlib.Core.Option.{some-injective}
use Prim.Native.String.{String}
use gin_bear.Base.{
  ◌≡◌, ◌≢◌, refl, sym, ap, ◌∙◌, ◌⊎◌, inl, inr, true, false, Bool-cases, Option, none, some, List,
  [],
}
use gin_bear.Base.Text.{join}
use gin_bear.Web.Plugin.{Route, MethodRoutes, Dispatcher, Param}
use gin_bear.Web.Plugin.Paths.{
  split_plugin_path, plugin_route_shape, new_plugin_route, specificity, plugin_route_more_specific,
}
use gin_bear.Web.Plugin.Table.{
  Best, best_of, answer, static_or, match_table, match_request, new_dispatcher,
}
use gin_bear.Web.Plugin.Shapes.{is_listed, Sound, shape_owner}
use gin_bear.Web.Plugin.Histories.{Call, calls, calls-AllSound}
use gin_bear.Web.Plugin.Order.{plugin_route_more_specific-tie}
use gin_bear.Web.Plugin.Best.{Candidate, SoFar, none_yet, best_yet, best_of-SoFar}
use gin_bear.Web.Plugin.Ties.{match_route-tie}

module _ {H : Type 0} where
  -- What a table answers to a path: the static route of that very path; or the only dynamic route that
  -- matches and is more specific than all others that match; or nothing, where no route matches.
  pub data Answers (table : MethodRoutes H) (path : String) : Option (H × List Param) → Type 0 where
    by_static :
        {r : Route H}
        → table.routes path ≡ some r
        → r.dynamic ≡ false
        → Answers table path (some (r.handler, []))
    by_best :
        {p : String} {r : Route H} {ps : List Param}
        → ((r' : Route H) → table.routes path ≡ some r' → r'.dynamic ≡ true)
        → Candidate table.routes (split_plugin_path path) p r ps
        → ((q : String) (r' : Route H) (ps' : List Param)
            → Candidate table.routes (split_plugin_path path) q r' ps'
            → (q ≡ p)
              ⊎ (plugin_route_more_specific (specificity r.segments) (specificity r'.segments)
                  ≡ true))
        → Answers table path (some (r.handler, ps))
    by_none :
        ((r' : Route H) → table.routes path ≡ some r' → r'.dynamic ≡ true)
        → ((q : String) (r' : Route H) (ps' : List Param)
            → ¬ Candidate table.routes (split_plugin_path path) q r' ps')
        → Answers table path none

  module _ (table : MethodRoutes H) (sound : Sound table) (values : List String) where
    -- Candidates of which neither is more specific are registered under one path.
    tied_path :
        (p q : String) (r r' : Route H) (ps ps' : List Param)
        → Candidate table.routes values p r ps
        → Candidate table.routes values q r' ps'
        → specificity r.segments ≡ specificity r'.segments
        → q ≡ p
    unfolding new_plugin_route plugin_route_shape specificity
    tied_path p q r r' ps ps' c c' e =
        let (h, is_r) = sound.route_of p r c.there in
        let (h', is_r') = sound.route_of q r' c'.there in
        let segments : r.segments ≡ split_plugin_path p = ap (λ x. x.segments) is_r in
        let segments' : r'.segments ≡ split_plugin_path q = ap (λ x. x.segments) is_r' in
        let shapes =
          match_route-tie (split_plugin_path q) (split_plugin_path p) values ps' ps
            (rw segments' at c'.matches) (rw segments at c.matches)
            (rw segments' at (rw segments at (sym e))) in
        shape_owner sound q p r' r c'.there c.there (ap (join "/") shapes)

    beaten_or_same :
        (p q : String) (r r' : Route H) (ps ps' : List Param)
        → Candidate table.routes values p r ps
        → Candidate table.routes values q r' ps'
        → plugin_route_more_specific (specificity r'.segments) (specificity r.segments) ≡ false
        → (q ≡ p)
          ⊎ (plugin_route_more_specific (specificity r.segments) (specificity r'.segments) ≡ true)
    beaten_or_same p q r r' ps ps' c c' lower =
        elim (Bool-cases
          (plugin_route_more_specific (specificity r.segments) (specificity r'.segments))) [
            | inl wins ↦ inr wins
            | inr tie ↦
                inl (tied_path p q r r' ps ps' c c' (plugin_route_more_specific-tie _ _ tie lower))
          ]

  pub match_table-Answers :
      (table : MethodRoutes H) (path : String)
      → Sound table
      → Answers table path (match_table table path)
  unfolding match_table
  match_table-Answers table path sound = go (table.routes path) refl
    where
      Listed : String → Type 0
      Listed q = ⊥ ⊎ (is_listed q table.order ≡ true)

      searched :
          SoFar table.routes
            (split_plugin_path path)
            Listed
            (best_of table.routes (split_plugin_path path) table.order none)
      searched =
          best_of-SoFar table.routes (split_plugin_path path) table.order
            (none_yet λ q r ps never. absurd never)

      dynamic :
          {best : Option (Best H)}
          → ((r' : Route H) → table.routes path ≡ some r' → r'.dynamic ≡ true)
          → SoFar table.routes (split_plugin_path path) Listed best
          → Answers table path (answer best)
      dynamic no_static (none_yet nobody) =
          by_none no_static λ q r' ps' c. nobody q r' ps' (inr (sound.listed q r' c.there)) c
      dynamic no_static (best_yet {p} {r} {ps} c beats) = by_best no_static c λ q r' ps' c'.
          beaten_or_same table sound (split_plugin_path path) p q r r' ps ps' c c'
            (beats q r' ps' (inr (sound.listed q r' c'.there)) c')

      go :
          (o : Option (Route H))
          → table.routes path ≡ o
          → Answers table path (
              static_or o (answer (best_of table.routes (split_plugin_path path) table.order none)))
      go none h = dynamic (λ r' h'. absurd (cc)) searched
      go (some r) h = elim (Bool-cases r.dynamic) [
        | inl is_dynamic ↦ rw is_dynamic (
            dynamic (λ r' h'. ap (λ x. x.dynamic) (some-injective _ _ (sym h' ∙ h)) ∙ is_dynamic)
              searched)
        | inr static ↦ rw static (by_static h static)
      ]

  module _ (to_upper : String → String) (cs : List (Call H)) (method : String)
      (table : MethodRoutes H) where
    abbrev built : Dispatcher H
    built = calls to_upper cs new_dispatcher

    built-Sound : built method ≡ some table → Sound table
    built-Sound h = calls-AllSound to_upper cs new_dispatcher (λ m t e. absurd (cc)) method table h

    -- After any calls of `RegisterE` and `Unregister`, two paths registered for a method have
    -- different shapes.
    pub calls-plugin_route_shape :
        (p q : String) (r r' : Route H)
        → built method ≡ some table
        → table.routes p ≡ some r
        → table.routes q ≡ some r'
        → p ≢ q
        → plugin_route_shape p ≢ plugin_route_shape q
    calls-plugin_route_shape p q r r' h hp hq apart same =
        apart (shape_owner (built-Sound h) p q r r' hp hq same)

    -- After any calls of `RegisterE` and `Unregister`, a request is answered by the static route of its
    -- very path; or else by the dynamic route that matches it and is more specific than every other one
    -- that does; or, where none matches, by nothing.
    pub match_request-Answers :
        (path : String)
        → built method ≡ some table
        → Answers table path (match_request built method path)
    unfolding match_request
    match_request-Answers path h =
        rw (h, match_request) (match_table-Answers table path (built-Sound h))
