-- ===== src/Web/Plugin/Tests.antt =====
-- Requests to a dispatcher with a few routes.
use Prim.Native.String.{String}
use text.Mathlib.TextEquality.{eq_iff}
use gin_bear.Base.{none, true, false, arith, ℕ, ◌≡◌, ◌≢◌, refl, some, List, [], ◌∷◌}
use gin_bear.Base.Text.{trim_at, trim_space, trim_suffix_at, split_at}
use gin_bear.Web.Plugin.{MethodRoutes, Param}
use gin_bear.Web.Plugin.Paths.{
  split_plugin_path, normalize_plugin_path, plugin_route_shape, new_plugin_route, match_route,
}
use gin_bear.Web.Plugin.Table.{register_e, register_route, no_routes, new_dispatcher, match_request}
use gin_bear.Web.Plugin.Barrier.{begin, end, drain, start_close}
use gin_bear.Web.Plugin.Closed.{
  World, first_world, Reaches, at_first, after, begins, ends, closes, wakes, Kept, Reaches-Kept,
}
use gin_bear.Web.Plugin.Histories.{Call, registers, calls}
use gin_bear.Web.Plugin.Winner.{Answers, calls-plugin_route_shape, match_request-Answers}
use gin_bear.Web.Plugin.Params.{slashed, expand, expand-match_route}

abbrev same_text : String → String
same_text s = s

abbrev two_calls : List (Call ℕ)
two_calls = registers "GET" "/users/:id" (some 1) ∷ registers "GET" "/users/*rest" (some 2) ∷ []

abbrev two_routes : MethodRoutes ℕ
two_routes = (register_route "/users/*rest" 2 (register_route "/users/:id" 1 no_routes).0).0

calls_two : calls same_text two_calls new_dispatcher "GET" ≡ some two_routes
unfolding register_e normalize_plugin_path trim_at trim_space trim_suffix_at
calls_two = refl

match_request-Answers_example :
    Answers two_routes "/users/7"
      (match_request (calls same_text two_calls new_dispatcher) "GET" "/users/7")
match_request-Answers_example =
    match_request-Answers same_text two_calls "GET" two_routes "/users/7" calls_two

id_there : two_routes.routes "/users/:id" ≡ some (new_plugin_route "/users/:id" 1)
unfolding register_route plugin_route_shape split_plugin_path split_at
id_there = refl

rest_there : two_routes.routes "/users/*rest" ≡ some (new_plugin_route "/users/*rest" 2)
unfolding register_route plugin_route_shape split_plugin_path split_at
rest_there = refl

paths_apart : ◌≢◌ {A = String} "/users/:id" "/users/*rest"
paths_apart h = absurd (let same = (eq_iff "/users/:id" "/users/*rest").1 h in cc)

calls-plugin_route_shape_example :
    plugin_route_shape "/users/:id" ≢ plugin_route_shape "/users/*rest"
calls-plugin_route_shape_example =
    calls-plugin_route_shape same_text two_calls "GET" two_routes "/users/:id" "/users/*rest"
      (new_plugin_route "/users/:id" 1) (new_plugin_route "/users/*rest" 2) calls_two id_there
      rest_there paths_apart

abbrev found : List Param
found = record { key = "id"; value = "7" } ∷ []

users_match : match_route ("users" ∷ ":id" ∷ []) ("users" ∷ "7" ∷ []) ≡ some found
unfolding match_route
users_match = refl

expand-match_route_example : expand ("users" ∷ ":id" ∷ []) found ≡ slashed ("users" ∷ "7" ∷ [])
expand-match_route_example =
    expand-match_route ("users" ∷ ":id" ∷ []) ("users" ∷ "7" ∷ []) found users_match

-- A registration, a close that waits for it, its end, and the commit.
abbrev one_runs : World
one_runs = record first_world {
  barrier = record { registrations = 1; blocked = false; transition = false; changed = 0 };
  running = 1;
}

abbrev all_closed : World
all_closed = record {
  barrier = record { registrations = 0; blocked = true; transition = false; changed = 1 };
  running = 0;
  waiting = none;
  committed = true;
}

reaches_one : Reaches one_runs
unfolding begin
reaches_one = after at_first (begins refl)

reaches_all : Reaches all_closed
unfolding start_close drain end
reaches_all =
    after (after (after reaches_one closes) (ends (omega arith))) (wakes 0 refl (omega arith))

Reaches-Kept_example : Kept all_closed
Reaches-Kept_example = Reaches-Kept reaches_all
