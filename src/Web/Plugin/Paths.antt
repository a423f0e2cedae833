-- ===== src/Web/Plugin/Paths.antt =====
-- The paths of pkg/bear/plugin.go: their segments, their shape, and what they match.
use Prim.Native.Char.{code}
use Prim.Native.String.{String}
use Prim.Native.String
use text.Mathlib.Text.{◌==◌}
use gin_bear.Base.{
  ℕ, ◌||◌, Bool, true, false, Option, none, some, List, [], ◌∷◌, any, map, eqb, ltb, if◌then◌else◌,
}
use gin_bear.Base.Text.{
  trim_space, trim_at, trim_prefix_at, trim_suffix_at, split_at, join, is_empty,
}
use gin_bear.Web.Plugin.{Route, Param}

-- `splitPluginPath`.
unfoldable pub split_plugin_path : String → List String
split_plugin_path path = split_at b'/' (trim_prefix_at b'/' path)

-- `normalizePluginPath`.
unfoldable pub normalize_plugin_path : String → String
normalize_plugin_path path =
    let slashed = String.◌++◌ "/" (trim_at b'/' (trim_space path)) in
    if slashed == "/" then slashed else trim_suffix_at b'/' slashed

-- `len(segment) > 1 && segment[0] == mark`.
abbrev pub has_mark : ℕ → String → Bool
has_mark mark String.[] = false
has_mark mark (String.◌∷◌ c String.[]) = false
has_mark mark (String.◌∷◌ c (String.◌∷◌ d s)) = eqb (code c) mark

abbrev pub is_catch_all : String → Bool
is_catch_all segment = has_mark b'*' segment

abbrev pub is_parameter : String → Bool
is_parameter segment = has_mark b':' segment

-- `segment[1:]`.
abbrev pub name_of : String → String
name_of String.[] = String.[]
name_of (String.◌∷◌ c s) = s

-- `segment[:1]`.
abbrev pub mark_of : String → String
mark_of String.[] = String.[]
mark_of (String.◌∷◌ c s) = String.◌∷◌ c String.[]

abbrev pub shape_segment : String → String
shape_segment segment =
    if is_parameter segment || is_catch_all segment then mark_of segment else segment

-- `pluginRouteShape`.
unfoldable pub plugin_route_shape : String → String
plugin_route_shape path = join "/" (map shape_segment (split_plugin_path path))

-- `newPluginRoute`.
unfoldable pub new_plugin_route : {H : Type 0} → String → H → Route H
new_plugin_route path handler =
    let segments = split_plugin_path path in
    record {
      handler = handler;
      segments = segments;
      dynamic = any (λ segment. is_parameter segment || is_catch_all segment) segments;
    }

abbrev pub rank : String → ℕ
rank segment = if is_catch_all segment then 0 else if is_parameter segment then 1 else 2

-- `specificity`.
unfoldable pub specificity : List String → List ℕ
specificity segments = map rank segments

-- `pluginRouteMoreSpecific`.
unfoldable pub plugin_route_more_specific : List ℕ → List ℕ → Bool
plugin_route_more_specific [] current = false
plugin_route_more_specific (a ∷ candidate) [] = true
plugin_route_more_specific (a ∷ candidate) (b ∷ current) =
    let rest = plugin_route_more_specific candidate current in if eqb a b then rest else ltb b a

-- A parameter put before the others of a match.
abbrev pub prepend : Param → Option (List Param) → Option (List Param)
prepend p none = none
prepend p (some ps) = some (p ∷ ps)

-- The rest of the path, where the pattern has no more segments.
abbrev pub caught : String → List String → List String → Option (List Param)
caught segment [] (value ∷ values) =
    some
      (record { key = name_of segment; value = String.◌++◌ "/" (join "/" (value ∷ values)) } ∷ [])
caught segment _ _ = none

-- `match` of a route.
unfoldable pub match_route : List String → List String → Option (List Param)
match_route [] [] = some []
match_route [] (value ∷ values) = none
match_route (segment ∷ segments) [] = none
match_route (segment ∷ segments) (value ∷ values) =
    let rest = match_route segments values in
    if is_catch_all segment
    then caught segment segments (value ∷ values)
    else if is_parameter segment
    then (if is_empty value
        then none
        else prepend (record { key = name_of segment; value = value }) rest)
    else if segment == value
    then rest
    else none
