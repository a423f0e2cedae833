-- ===== src/Web/Plugin/Best.antt =====
-- The loop of `match` of pkg/bear/plugin.go.
use mathlib.Core.Option.{some-injective}
use Prim.Native.String.{String}
use text.Mathlib.Text.{◌==◌}
use text.Mathlib.TextEquality.{eq_iff}
use gin_bear.Base.{
  ◌≡◌, refl, sym, subst, ◌∙◌, ◌⊎◌, inl, inr, Bool, true, false, Bool-cases, Option, none, some,
  List, [], ◌∷◌,
}
use gin_bear.Web.Plugin.{Route, Param}
use gin_bear.Web.Plugin.Paths.{specificity, plugin_route_more_specific, match_route}
use gin_bear.Web.Plugin.Table.{Best, better, consider, best_of}
use gin_bear.Web.Plugin.Shapes.{is_listed}
use gin_bear.Web.Plugin.Order.{plugin_route_more_specific_irrefl, plugin_route_more_specific_trans}

module _ {H : Type 0} (routes : String → Option (Route H)) (values : List String) where
  -- A dynamic route registered under a path, and what its parameters are on the values.
  pub record Candidate (path : String) (route : Route H) (params : List Param) : Type 0 where
    pub there : routes path ≡ some route
    pub dynamic : route.dynamic ≡ true
    pub matches : match_route route.segments values ≡ some params

  abbrev more : Route H → Route H → Bool
  more r r' = plugin_route_more_specific (specificity r.segments) (specificity r'.segments)

  -- The best of the candidates among some paths.
  pub data SoFar (S : String → Type 0) : Option (Best H) → Type 0 where
    none_yet :
        ((q : String) (r : Route H) (ps : List Param) → S q → ¬ Candidate q r ps) → SoFar S none
    best_yet :
        {p : String} {r : Route H} {ps : List Param}
        → Candidate p r ps
        → ((q : String) (r' : Route H) (ps' : List Param)
            → S q
            → Candidate q r' ps'
            → more r' r ≡ false)
        → SoFar S
            (some (record { rank_list = specificity r.segments; handler = r.handler; params = ps }))

  SoFar-fewer :
      {S S' : String → Type 0} {best : Option (Best H)}
      → ((q : String) → S' q → S q)
      → SoFar S best
      → SoFar S' best
  SoFar-fewer f (none_yet nobody) = none_yet λ q r ps s. nobody q r ps (f q s)
  SoFar-fewer f (best_yet c beats) = best_yet c λ q r' ps' s. beats q r' ps' (f q s)

  SoFar-idle :
      {S : String → Type 0} {best : Option (Best H)} (x : String)
      → ((r : Route H) (ps : List Param) → ¬ Candidate x r ps)
      → SoFar S best
      → SoFar (λ q. S q ⊎ (x ≡ q)) best
  SoFar-idle {S} x idle (none_yet nobody) = none_yet λ q r ps s c. elim s [
    | inl before ↦ nobody q r ps before c
    | inr here ↦ idle r ps (subst (λ y. Candidate y r ps) (sym here) c)
  ]
  SoFar-idle {S} x idle (best_yet c beats) = best_yet c λ q r' ps' s c'. elim s [
    | inl before ↦ beats q r' ps' before c'
    | inr here ↦ absurd (idle r' ps' (subst (λ y. Candidate y r' ps') (sym here) c'))
  ]

  same_route :
      {x : String} {r r' : Route H} {ps ps' : List Param}
      → Candidate x r ps
      → Candidate x r' ps'
      → r' ≡ r
  same_route c c' = some-injective _ _ (sym c'.there ∙ c.there)

  better-SoFar :
      {S : String → Type 0} {best : Option (Best H)} (x : String) (route : Route H)
      (params : List Param)
      → Candidate x route params
      → SoFar S best
      → SoFar (λ q. S q ⊎ (x ≡ q)) (better route params best)
  better-SoFar {S} x route params c (none_yet nobody) = best_yet c λ q r' ps' s c'. elim s [
    | inl before ↦ absurd (nobody q r' ps' before c')
    | inr here ↦
        let same = same_route c (subst (λ y. Candidate y r' ps') (sym here) c') in
        rw same (plugin_route_more_specific_irrefl _)
  ]
  better-SoFar {S} x route params c (best_yet {p} {r} {ps} held beats) =
      elim (Bool-cases (more route r)) [
        | inl wins ↦ rw wins (
            best_yet c λ q r' ps' s c'. elim s [
              | inl before ↦ elim (Bool-cases (more r' route)) [
                | inl beyond ↦
                    let above = plugin_route_more_specific_trans _ _ _ beyond wins in
                    let below = beats q r' ps' before c' in absurd (cc)
                | inr not_beyond ↦ not_beyond
              ]
              | inr here ↦
                  let same = same_route c (subst (λ y. Candidate y r' ps') (sym here) c') in
                  rw same (plugin_route_more_specific_irrefl _)
            ])
        | inr loses ↦ rw loses (
            best_yet held λ q r' ps' s c'. elim s [
              | inl before ↦ beats q r' ps' before c'
              | inr here ↦
                  let same = same_route c (subst (λ y. Candidate y r' ps') (sym here) c') in
                  rw same loses
            ])
      ]

  consider-SoFar :
      {S : String → Type 0} {best : Option (Best H)} (x : String)
      → SoFar S best
      → SoFar (λ q. S q ⊎ (x ≡ q)) (consider (routes x) values best)
  consider-SoFar {S} {best} x h = found (routes x) refl
    where
      matched :
          (route : Route H) (o : Option (List Param))
          → routes x ≡ some route
          → route.dynamic ≡ true
          → match_route route.segments values ≡ o
          → SoFar
              (λ q. S q ⊎ (x ≡ q))
              (elim o as (λ y. Option (Best H)) [
                | none ↦ best
                | some params ↦ better route params best
              ])
      matched route none there dynamic m =
          SoFar-idle x
            (λ r ps c.
              let same = some-injective _ _ (sym there ∙ c.there) in
              let m' = rw same at m in let m'' = c.matches in cc)
            h
      matched route (some params) there dynamic m =
          better-SoFar x route params (record { there = there; dynamic = dynamic; matches = m }) h

      found :
          (o : Option (Route H))
          → routes x ≡ o
          → SoFar (λ q. S q ⊎ (x ≡ q)) (consider o values best)
      found none there = SoFar-idle x (λ r ps c. let t = c.there in cc) h
      found (some route) there = elim (Bool-cases route.dynamic) [
        | inl dynamic ↦ rw dynamic (matched route _ there dynamic refl)
        | inr static ↦ rw static (
            SoFar-idle x
              (λ r ps c.
                let same = some-injective _ _ (sym there ∙ c.there) in
                let s' = rw same at static in let d = c.dynamic in cc)
              h)
      ]

  pub best_of-SoFar :
      (order : List String) {S : String → Type 0} {best : Option (Best H)}
      → SoFar S best
      → SoFar (λ q. S q ⊎ (is_listed q order ≡ true)) (best_of routes values order best)
  unfolding best_of
  best_of-SoFar [] h =
      SoFar-fewer (λ q s. elim s [ inl before ↦ before | inr never ↦ absurd (cc) ]) h
  best_of-SoFar (x ∷ order) h =
      SoFar-fewer
        (λ q s. elim s [
          | inl before ↦ inl (inl before)
          | inr listed ↦ elim (Bool-cases (x == q)) [
            | inl here ↦ inl (inr ((eq_iff x q).0 here))
            | inr later ↦ inr (rw later at listed)
          ]
        ])
        (best_of-SoFar order (consider-SoFar x h))
