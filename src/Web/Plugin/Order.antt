-- ===== src/Web/Plugin/Order.antt =====
-- The order of specificity of pkg/bear/plugin.go.
use gin_bear.Base.{ℕ, ◌≡◌, refl, true, false, List, [], ◌∷◌, eqb_iff, arith}
use gin_bear.Web.Plugin.Paths.{plugin_route_more_specific}

pub plugin_route_more_specific_irrefl : (xs : List ℕ) → plugin_route_more_specific xs xs ≡ false
unfolding plugin_route_more_specific
plugin_route_more_specific_irrefl [] = refl
plugin_route_more_specific_irrefl (x ∷ xs) =
    rw ((eqb_iff x x).1 refl) (plugin_route_more_specific_irrefl xs)

pub plugin_route_more_specific_trans :
    (xs ys zs : List ℕ)
    → plugin_route_more_specific xs ys ≡ true
    → plugin_route_more_specific ys zs ≡ true
    → plugin_route_more_specific xs zs ≡ true
unfolding plugin_route_more_specific
plugin_route_more_specific_trans [] ys zs h h' = absurd (cc)
plugin_route_more_specific_trans (x ∷ xs) [] zs h h' = absurd (cc)
plugin_route_more_specific_trans (x ∷ xs) (y ∷ ys) [] h h' = refl
plugin_route_more_specific_trans (x ∷ xs) (y ∷ ys) (z ∷ zs) h h' =
    let rest = plugin_route_more_specific_trans xs ys zs in ground (arith, rest)

-- Two lists of which neither is before the other are equal.
pub plugin_route_more_specific-tie :
    (xs ys : List ℕ)
    → plugin_route_more_specific xs ys ≡ false
    → plugin_route_more_specific ys xs ≡ false
    → xs ≡ ys
unfolding plugin_route_more_specific
plugin_route_more_specific-tie [] [] h h' = refl
plugin_route_more_specific-tie [] (y ∷ ys) h h' = absurd (cc)
plugin_route_more_specific-tie (x ∷ xs) [] h h' = absurd (cc)
plugin_route_more_specific-tie (x ∷ xs) (y ∷ ys) h h' =
    let rest = plugin_route_more_specific-tie xs ys in ground (arith, rest)
