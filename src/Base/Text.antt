-- ===== src/Base/Text.antt =====
-- The text functions of Go's `strings` package that the code calls, over the native `String`.
use Prim.Native.Char.{Char, code}
use Prim.Native.String.{String}
use Prim.Native.String
use gin_bear.Base.Tests.{ltb, leb, eqb, if◌then◌else◌}
use Prim.Native.Nat.{ℕ, zero, suc, ◌+◌, ◌/◌, ◌%◌}
use mathlib.Core.List.{List, [], ◌∷◌, map}
use mathlib.Core.Bool.{Bool, true, false, ◌&&◌, ◌||◌}
use mathlib.Core.Option.{none, some}
use text.Mathlib.Text.{find?}

-- `unicode.IsSpace`.
unfoldable pub is_space : ℕ → Bool
is_space c =
    (leb 9 c && leb c 13)
    || eqb c 0x20
    || eqb c 0x85
    || eqb c 0xa0
    || eqb c 0x1680
    || (leb 0x2000 c && leb c 0x200a)
    || eqb c 0x2028
    || eqb c 0x2029
    || eqb c 0x202f
    || eqb c 0x205f
    || eqb c 0x3000

abbrev pub is_empty : String → Bool
is_empty String.[] = true
is_empty (String.◌∷◌ c s) = false

trim_left : String → String
trim_left String.[] = String.[]
trim_left (String.◌∷◌ c s) =
    let rest = trim_left s in if is_space (code c) then rest else String.◌∷◌ c s

trim_right : String → String
trim_right String.[] = String.[]
trim_right (String.◌∷◌ c s) =
    let rest = trim_right s in
    if is_empty rest && is_space (code c) then String.[] else String.◌∷◌ c rest

-- `strings.TrimSpace`.
unfoldable pub trim_space : String → String
unfolding trim_left trim_right is_space
trim_space s = trim_right (trim_left s)

-- `strings.TrimSpace(s) == ""`.
unfoldable pub is_blank : String → Bool
unfolding trim_space
is_blank s = is_empty (trim_space s)

abbrev pub push_char : Char → List String → List String
push_char c [] = String.◌∷◌ c String.[] ∷ []
push_char c (w ∷ ws) = String.◌∷◌ c w ∷ ws

-- `strings.Split` at one character.
unfoldable pub split_at : ℕ → String → List String
split_at sep String.[] = String.[] ∷ []
split_at sep (String.◌∷◌ c s) =
    let rest = split_at sep s in if eqb (code c) sep then String.[] ∷ rest else push_char c rest

-- `strings.Trim` with one character as its cut set.
trim_left_at : ℕ → String → String
trim_left_at mark String.[] = String.[]
trim_left_at mark (String.◌∷◌ c s) =
    let rest = trim_left_at mark s in if eqb (code c) mark then rest else String.◌∷◌ c s

trim_right_at : ℕ → String → String
trim_right_at mark String.[] = String.[]
trim_right_at mark (String.◌∷◌ c s) =
    let rest = trim_right_at mark s in
    if is_empty rest && eqb (code c) mark then String.[] else String.◌∷◌ c rest

unfoldable pub trim_at : ℕ → String → String
unfolding trim_left_at trim_right_at
trim_at mark s = trim_right_at mark (trim_left_at mark s)

-- `strings.TrimPrefix` with one character.
abbrev pub trim_prefix_at : ℕ → String → String
trim_prefix_at mark String.[] = String.[]
trim_prefix_at mark (String.◌∷◌ c s) = if eqb (code c) mark then s else String.◌∷◌ c s

-- `strings.TrimSuffix` with one character.
unfoldable pub trim_suffix_at : ℕ → String → String
trim_suffix_at mark String.[] = String.[]
trim_suffix_at mark (String.◌∷◌ c s) =
    let rest = trim_suffix_at mark s in
    if is_empty s && eqb (code c) mark then String.[] else String.◌∷◌ c rest

-- `strings.Join` with a separator.
abbrev pub join : String → List String → String
join sep [] = ""
join sep (s ∷ []) = s
join sep (s ∷ (t ∷ ts)) = String.◌++◌ s (String.◌++◌ sep (join sep (t ∷ ts)))

-- `strings.Contains`.
unfoldable pub contains : String → String → Bool
contains s part = elim (find? s part) [ none ↦ false | some _ ↦ true ]

-- The code points of a text.
abbrev pub codes : String → List ℕ
codes String.[] = []
codes (String.◌∷◌ c s) = code c ∷ codes s

abbrev pub same_codes : List ℕ → List ℕ → Bool
same_codes [] [] = true
same_codes (a ∷ as') (b ∷ bs) = eqb a b && same_codes as' bs
same_codes _ _ = false

-- `unicode.ToLower` where its result can be an ASCII letter: A to Z, and the two letters beyond
-- ASCII that are lowered to one (İ and the Kelvin sign).
abbrev pub lower_code : ℕ → ℕ
lower_code c =
    if leb b'A' c && leb c b'Z'
    then c + 32
    else if eqb c 0x130
    then b'i'
    else if eqb c 0x212a
    then b'k'
    else c

-- `strings.ToLower(s) == name`, for a name in lower-case ASCII.
unfoldable pub lowered_is : String → String → Bool
lowered_is s name = same_codes (map lower_code (codes s)) (codes name)

abbrev pub digit : ℕ → String
digit d =
    if eqb d 0
    then "0"
    else if eqb d 1
    then "1"
    else if eqb d 2
    then "2"
    else if eqb d 3
    then "3"
    else if eqb d 4
    then "4"
    else if eqb d 5
    then "5"
    else if eqb d 6
    then "6"
    else if eqb d 7
    then "7"
    else if eqb d 8
    then "8"
    else "9"

-- The digits of a number below 10 ^ fuel.
decimal_from : ℕ → ℕ → String
decimal_from zero n = ""
decimal_from (suc fuel) n =
    let front = decimal_from fuel (n / 10) in
    if ltb n 10 then digit n else String.◌++◌ front (digit (n % 10))

-- `%d`, for a number below 2 ^ 64.
unfoldable pub decimal : ℕ → String
unfolding decimal_from
decimal n = decimal_from 20 n
