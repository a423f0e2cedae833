-- ===== src/Web/Plugin/Params.antt =====
-- The parameters of a match of pkg/bear/plugin.go.

use Prim.Native.String.{String}
use Prim.Native.String
use text.Mathlib.TextLemmas.{append-nil}
use gin_bear.Base.{◌≡◌, refl, sym, ap, ◌∙◌, false, some, List, [], ◌∷◌, if◌then◌else◌}
use gin_bear.Base.Text.{join}
use gin_bear.Web.Plugin.{Param}
use gin_bear.Web.Plugin.Paths.{is_catch_all, is_parameter, match_route}
use gin_bear.Web.Plugin.Ties.{catches, takes, equals, match_route-Step}

-- Each segment after a slash.
abbrev pub slashed : List String → String
slashed [] = ""
slashed (s ∷ ss) = String.◌++◌ "/" (String.◌++◌ s (slashed ss))

-- The pattern with the values of its parameters put in; a value of a catch-all has its slash.
unfoldable pub expand : List String → List Param → String
expand [] ps = ""
expand (s ∷ ss) [] = let rest = expand ss [] in String.◌++◌ "/" (String.◌++◌ s rest)
expand (s ∷ ss) (p ∷ ps) =
    let filled = expand ss ps in
    let kept = expand ss (p ∷ ps) in
    if is_catch_all s
    then String.◌++◌ p.value filled
    else if is_parameter s
    then String.◌++◌ "/" (String.◌++◌ p.value filled)
    else String.◌++◌ "/" (String.◌++◌ s kept)

slashed_lem :
    (s : String) (ss : List String) → slashed (s ∷ ss) ≡ String.◌++◌ "/" (join "/" (s ∷ ss))
slashed_lem s [] = ap (λ x. String.◌++◌ "/" x) (append-nil s)
slashed_lem s (t ∷ ss) = ap (λ x. String.◌++◌ "/" (String.◌++◌ s x)) (slashed_lem t ss)

expand_literal :
    (s : String) (ss : List String) (ps : List Param)
    → is_catch_all s ≡ false
    → is_parameter s ≡ false
    → expand (s ∷ ss) ps ≡ String.◌++◌ "/" (String.◌++◌ s (expand ss ps))
unfolding expand
expand_literal s ss [] a b = refl
expand_literal s ss (p ∷ ps) a b = rw a (rw b refl)

-- A match loses nothing: the pattern, filled with the parameters that a match returns, is the path
-- that was matched, segment for segment.
pub expand-match_route :
    (ss vs : List String) (ps : List Param)
    → match_route ss vs ≡ some ps
    → expand ss ps ≡ slashed vs
unfolding match_route expand
expand-match_route [] [] ps m = refl
expand-match_route [] (v ∷ vs) ps m = absurd (cc)
expand-match_route (s ∷ ss) [] ps m = absurd (cc)
expand-match_route (s ∷ ss) (v ∷ vs) ps m = elim (match_route-Step s ss v vs ps m) [
  | catches a last is_ps ↦ rw is_ps (rw a (rw last (append-nil _ ∙ sym (slashed_lem v vs))))
  | takes ps' a b m' is_ps ↦
      rw is_ps (
        rw a (rw b (ap (λ x. String.◌++◌ "/" (String.◌++◌ v x)) (expand-match_route ss vs ps' m'))))
  | equals a b same m' ↦
      expand_literal s ss ps a b
      ∙ ap (λ x. String.◌++◌ "/" (String.◌++◌ s x)) (expand-match_route ss vs ps m')
      ∙ ap (λ x. String.◌++◌ "/" (String.◌++◌ x (slashed vs))) same
]
