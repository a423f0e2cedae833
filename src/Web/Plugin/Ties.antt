-- ===== src/Web/Plugin/Ties.antt =====
-- Two patterns of pkg/bear/plugin.go that match one path.

use Prim.Native.String.{String}
use Prim.Native.String
use text.Mathlib.Text.{◌==◌}
use text.Mathlib.TextEquality.{eq_iff, Char-path}
use gin_bear.Base.{
  ℕ, ◌≡◌, refl, sym, ap, ◌∙◌, ◌⊎◌, inl, inr, true, false, Bool-cases, Option, none, some, List, [],
  ◌∷◌, map, eqb_iff, arith,
}
use gin_bear.Base.Text.{is_empty, join}
use gin_bear.Web.Plugin.{Param}
use gin_bear.Web.Plugin.Paths.{
  has_mark, is_catch_all, is_parameter, name_of, mark_of, shape_segment, rank, prepend, caught,
  match_route,
}

has_mark-mark_of :
    (mark : ℕ) (s s' : String)
    → has_mark mark s ≡ true
    → has_mark mark s' ≡ true
    → mark_of s ≡ mark_of s'
has_mark-mark_of mark String.[] s' h h' = absurd (cc)
has_mark-mark_of mark (String.◌∷◌ c String.[]) s' h h' = absurd (cc)
has_mark-mark_of mark (String.◌∷◌ c (String.◌∷◌ d s)) String.[] h h' = absurd (cc)
has_mark-mark_of mark (String.◌∷◌ c (String.◌∷◌ d s)) (String.◌∷◌ c' String.[]) h h' = absurd (cc)
has_mark-mark_of mark (String.◌∷◌ c (String.◌∷◌ d s)) (String.◌∷◌ c' (String.◌∷◌ d' s')) h h' =
    let same = Char-path c c' ((eqb_iff _ _).0 h ∙ sym ((eqb_iff _ _).0 h')) in
    ap (λ x. String.◌∷◌ x String.[]) same

-- The three kinds of segment, with what the tests say of each.
data Kind (s : String) : Type 0 where
  catch_all : is_catch_all s ≡ true → is_parameter s ≡ false → Kind s
  parameter : is_catch_all s ≡ false → is_parameter s ≡ true → Kind s
  literal : is_catch_all s ≡ false → is_parameter s ≡ false → Kind s

has_mark-other : (s : String) → has_mark b'*' s ≡ true → has_mark b':' s ≡ false
has_mark-other String.[] h = refl
has_mark-other (String.◌∷◌ c String.[]) h = refl
has_mark-other (String.◌∷◌ c (String.◌∷◌ d s)) h = rw ((eqb_iff _ _).0 h) refl

kind : (s : String) → Kind s
kind s = elim (Bool-cases (is_catch_all s)) [
  | inl star ↦ catch_all star (has_mark-other s star)
  | inr no_star ↦ elim (Bool-cases (is_parameter s)) [
    | inl colon ↦ parameter no_star colon
    | inr no_colon ↦ literal no_star no_colon
  ]
]

-- Segments of one rank that both match a value have one shape.
tie_segment :
    (s s' value : String)
    → rank s ≡ rank s'
    → (rank s ≡ 2 → s ≡ value)
    → (rank s' ≡ 2 → s' ≡ value)
    → shape_segment s ≡ shape_segment s'
tie_segment s s' value = go (kind s) (kind s')
  where
    go :
        Kind s
        → Kind s'
        → rank s ≡ rank s'
        → (rank s ≡ 2 → s ≡ value)
        → (rank s' ≡ 2 → s' ≡ value)
        → shape_segment s ≡ shape_segment s'
    go (catch_all a b) (catch_all a' b') e f f' =
        rw b (rw a (rw b' (rw a' (has_mark-mark_of b'*' s s' a a'))))
    go (catch_all a b) (parameter a' b') e f f' =
        absurd (let e' = rw a at (rw a' at (rw b' at e)) in omega (arith, e'))
    go (catch_all a b) (literal a' b') e f f' =
        absurd (let e' = rw a at (rw a' at (rw b' at e)) in omega (arith, e'))
    go (parameter a b) (catch_all a' b') e f f' =
        absurd (let e' = rw a at (rw b at (rw a' at e)) in omega (arith, e'))
    go (parameter a b) (parameter a' b') e f f' = rw b (rw b' (has_mark-mark_of b':' s s' b b'))
    go (parameter a b) (literal a' b') e f f' =
        absurd (let e' = rw a at (rw b at (rw a' at (rw b' at e))) in omega (arith, e'))
    go (literal a b) (catch_all a' b') e f f' =
        absurd (let e' = rw a at (rw b at (rw a' at e)) in omega (arith, e'))
    go (literal a b) (parameter a' b') e f f' =
        absurd (let e' = rw a at (rw b at (rw a' at (rw b' at e))) in omega (arith, e'))
    go (literal a b) (literal a' b') e f f' =
        let here : s ≡ value = f (rw a (rw b refl)) in
        let there : s' ≡ value = f' (rw a' (rw b' refl)) in ap shape_segment (here ∙ sym there)

-- How a pattern that begins with a segment matches.
pub data Step (s : String) (ss : List String) (v : String) (vs : List String) (ps : List Param)
    : Type 0 where
  catches :
      is_catch_all s ≡ true
      → ss ≡ []
      → ps ≡ record { key = name_of s; value = String.◌++◌ "/" (join "/" (v ∷ vs)) } ∷ []
      → Step s ss v vs ps
  takes :
      (ps' : List Param)
      → is_catch_all s ≡ false
      → is_parameter s ≡ true
      → match_route ss vs ≡ some ps'
      → ps ≡ record { key = name_of s; value = v } ∷ ps'
      → Step s ss v vs ps
  equals :
      is_catch_all s ≡ false
      → is_parameter s ≡ false
      → s ≡ v
      → match_route ss vs ≡ some ps
      → Step s ss v vs ps

pub match_route-Step :
    (s : String) (ss : List String) (v : String) (vs : List String) (ps : List Param)
    → match_route (s ∷ ss) (v ∷ vs) ≡ some ps
    → Step s ss v vs ps
unfolding match_route
match_route-Step s ss v vs ps h = go (kind s)
  where
    caught_only :
        (rest : List String)
        → is_catch_all s ≡ true
        → ss ≡ rest
        → caught s rest (v ∷ vs) ≡ some ps
        → Step s ss v vs ps
    caught_only [] a same e = catches a same (cc)
    caught_only (t ∷ rest) a same e = absurd (cc)

    taken :
        (o : Option (List Param))
        → is_catch_all s ≡ false
        → is_parameter s ≡ true
        → match_route ss vs ≡ o
        → prepend (record { key = name_of s; value = v }) o ≡ some ps
        → Step s ss v vs ps
    taken none a b m e = absurd (cc)
    taken (some ps') a b m e = takes ps' a b m (cc)

    go : Kind s → Step s ss v vs ps
    go (catch_all a b) = caught_only ss a refl (rw a at h)
    go (parameter a b) = elim (Bool-cases (is_empty v)) [
      | inl empty ↦ absurd (let e = rw empty at (rw b at (rw a at h)) in cc)
      | inr filled ↦ taken _ a b refl (rw filled at (rw b at (rw a at h)))
    ]
    go (literal a b) = elim (Bool-cases (s == v)) [
      | inl same ↦ equals a b ((eq_iff s v).0 same) (rw same at (rw b at (rw a at h)))
      | inr other ↦ absurd (let e = rw other at (rw b at (rw a at h)) in cc)
    ]

step_literal :
    {s : String} {ss : List String} {v : String} {vs : List String} {ps : List Param}
    → Step s ss v vs ps
    → rank s ≡ 2
    → s ≡ v
step_literal (catches a e p) h = absurd (let h' = rw a at h in omega (arith, h'))
step_literal (takes ps' a b m p) h = absurd (let h' = rw a at (rw b at h) in omega (arith, h'))
step_literal (equals a b e m) h = e

rank_apart :
    (s s' : String) → is_catch_all s ≡ true → is_catch_all s' ≡ false → ¬ (rank s ≡ rank s')
rank_apart s s' star no_star = go (Bool-cases (is_parameter s'))
  where
    go : (is_parameter s' ≡ true) ⊎ (is_parameter s' ≡ false) → ¬ (rank s ≡ rank s')
    go (inl colon) e = let e' = rw star at (rw no_star at (rw colon at e)) in omega (arith, e')
    go (inr no_colon) e =
        let e' = rw star at (rw no_star at (rw no_colon at e)) in omega (arith, e')

-- Either both catch the rest of the path or both go on.
data Both (s s' : String) (ss ss' vs : List String) : Type 0 where
  both_catch : ss ≡ [] → ss' ≡ [] → Both s s' ss ss' vs
  both_go_on :
      (qs qs' : List Param)
      → match_route ss vs ≡ some qs
      → match_route ss' vs ≡ some qs'
      → Both s s' ss ss' vs

steps-Both :
    {s s' v : String} {ss ss' vs : List String} {ps ps' : List Param}
    → Step s ss v vs ps
    → Step s' ss' v vs ps'
    → rank s ≡ rank s'
    → Both s s' ss ss' vs
steps-Both (catches a e p) (catches a' e' p') head = both_catch e e'
steps-Both {s} {s'} (catches a e p) (takes qs' a' b' n' p') head =
    absurd (rank_apart s s' a a' head)
steps-Both {s} {s'} (catches a e p) (equals a' b' same n') head = absurd (rank_apart s s' a a' head)
steps-Both {s} {s'} (takes qs a b n p) (catches a' e' p') head =
    absurd (rank_apart s' s a' a (sym head))
steps-Both {s} {s'} (equals a b same n) (catches a' e' p') head =
    absurd (rank_apart s' s a' a (sym head))
steps-Both (takes qs a b n p) (takes qs' a' b' n' p') head = both_go_on qs qs' n n'
steps-Both {ps' = ps'} (takes qs a b n p) (equals a' b' same n') head = both_go_on qs ps' n n'
steps-Both {ps = ps} (equals a b same n) (takes qs' a' b' n' p') head = both_go_on ps qs' n n'
steps-Both {ps = ps} {ps' = ps'} (equals a b same n) (equals a' b' same' n') head =
    both_go_on ps ps' n n'

-- Two patterns that match one path and are equally specific have one shape.
pub match_route-tie :
    (ss ss' vs : List String) (ps ps' : List Param)
    → match_route ss vs ≡ some ps
    → match_route ss' vs ≡ some ps'
    → map rank ss ≡ map rank ss'
    → map shape_segment ss ≡ map shape_segment ss'
unfolding match_route
match_route-tie [] [] vs ps ps' m m' e = refl
match_route-tie [] (s' ∷ ss') vs ps ps' m m' e = absurd (cc)
match_route-tie (s ∷ ss) [] vs ps ps' m m' e = absurd (cc)
match_route-tie (s ∷ ss) (s' ∷ ss') [] ps ps' m m' e = absurd (cc)
match_route-tie (s ∷ ss) (s' ∷ ss') (v ∷ vs) ps ps' m m' e =
    let head : rank s ≡ rank s' = cc in
    let rest : map rank ss ≡ map rank ss' = cc in
    let step = match_route-Step s ss v vs ps m in
    let step' = match_route-Step s' ss' v vs ps' m' in
    let first = tie_segment s s' v head (step_literal step) (step_literal step') in
    let later : map shape_segment ss ≡ map shape_segment ss' = elim (steps-Both step step' head) [
      | both_catch none_left none_left' ↦ cc
      | both_go_on qs qs' n n' ↦ match_route-tie ss ss' vs qs qs' n n' rest
    ] in
    cc
