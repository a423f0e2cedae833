-- ===== src/Web/Plugin/Table.antt =====
-- `RegisterE`, `Unregister` and `match` of the dispatcher of pkg/bear/plugin.go. The upper-case form of
-- a method is a parameter.
use Prim.Native.String.{String}
use text.Mathlib.Text.{◌==◌}
use gin_bear.Base.{
  ℕ, not, Bool, true, false, Option, none, some, List, [], ◌∷◌, ◌++◌, if◌then◌else◌,
}
use gin_bear.Base.Text.{trim_space}
use gin_bear.Web.Plugin.{Route, MethodRoutes, Dispatcher, Param}
use gin_bear.Web.Plugin.Paths.{
  split_plugin_path, normalize_plugin_path, plugin_route_shape, new_plugin_route, specificity,
  plugin_route_more_specific, match_route,
}

pub data RegisterErr : Type 0 where
  no_handler : RegisterErr
  conflicts_with : String → RegisterErr

-- `m[key] = value` and `delete(m, key)`.
abbrev pub set_entry : {V : Type 0} → String → V → (String → Option V) → String → Option V
set_entry key value m x = if x == key then some value else m x

abbrev pub delete_entry : {V : Type 0} → String → (String → Option V) → String → Option V
delete_entry key m x = if x == key then none else m x

abbrev pub is_there : {V : Type 0} → Option V → Bool
is_there none = false
is_there (some v) = true

abbrev pub taken_by_other : String → Option String → Option String
taken_by_other path none = none
taken_by_other path (some registered) = if registered == path then none else some registered

-- The best match so far.
pub record Best (H : Type 0) : Type 0 where
  pub rank_list : List ℕ
  pub handler : H
  pub params : List Param

-- `strings.ToUpper(strings.TrimSpace(method))`.
abbrev pub method_of : (String → String) → String → String
method_of to_upper method = to_upper (trim_space method)

module _ {H : Type 0} where
  abbrev pub no_routes : MethodRoutes H
  no_routes = record { routes = λ path. none; shapes = λ shape. none; order = [] }

  abbrev pub new_dispatcher : Dispatcher H
  new_dispatcher method = none

  abbrev pub routes_or_new : Option (MethodRoutes H) → MethodRoutes H
  routes_or_new none = no_routes
  routes_or_new (some table) = table

  -- What `RegisterE` stores once the shape is free or the path's own.
  abbrev pub add_route : String → H → MethodRoutes H → MethodRoutes H
  add_route path handler table = record {
    routes = set_entry path (new_plugin_route path handler) table.routes;
    shapes = set_entry (plugin_route_shape path) path table.shapes;
    order = if is_there (table.routes path) then table.order else table.order ++ path ∷ [];
  }

  -- The part of `RegisterE` on the table of one method.
  unfoldable pub register_route : String → H → MethodRoutes H → MethodRoutes H × Option RegisterErr
  register_route path handler table =
      elim (taken_by_other path (table.shapes (plugin_route_shape path))) [
        | some registered ↦ (table, some (conflicts_with registered))
        | none ↦ (add_route path handler table, none)
      ]

  -- The part of `Unregister` on the table of one method.
  unfoldable pub unregister_route : String → MethodRoutes H → MethodRoutes H
  unregister_route path table = record table {
    routes = delete_entry path table.routes;
    shapes =
        if is_there (table.routes path)
        then delete_entry (plugin_route_shape path) table.shapes
        else table.shapes;
  }

  abbrev pub better : Route H → List Param → Option (Best H) → Option (Best H)
  better route params none =
      some (record {
        rank_list = specificity route.segments;
        handler = route.handler;
        params = params;
      })
  better route params (some best) =
      if plugin_route_more_specific (specificity route.segments) best.rank_list
      then some (record {
        rank_list = specificity route.segments;
        handler = route.handler;
        params = params;
      })
      else some best

  abbrev pub consider : Option (Route H) → List String → Option (Best H) → Option (Best H)
  consider none values best = best
  consider (some route) values best =
      if not route.dynamic then best else elim (match_route route.segments values) [
        | none ↦ best
        | some params ↦ better route params best
      ]

  -- The loop of `match` over the registered paths.
  unfoldable pub best_of :
      (String → Option (Route H)) → List String → List String → Option (Best H) → Option (Best H)
  best_of routes values [] best = best
  best_of routes values (path ∷ order) best =
      best_of routes values order (consider (routes path) values best)

  abbrev pub answer : Option (Best H) → Option (H × List Param)
  answer none = none
  answer (some best) = some (best.handler, best.params)

  abbrev pub static_or : Option (Route H) → Option (H × List Param) → Option (H × List Param)
  static_or none dynamic = dynamic
  static_or (some route) dynamic = if not route.dynamic then some (route.handler, []) else dynamic

  -- `match` on the table of one method; `none` is the nil handler.
  unfoldable pub match_table : MethodRoutes H → String → Option (H × List Param)
  match_table table path =
      static_or (table.routes path)
        (answer (best_of table.routes (split_plugin_path path) table.order none))

  -- `match`.
  unfoldable pub match_request : Dispatcher H → String → String → Option (H × List Param)
  match_request d method path = elim (d method) [
    | none ↦ none
    | some table ↦ match_table table path
  ]

  abbrev pub without_route : String → String → Option (MethodRoutes H) → Dispatcher H → Dispatcher H
  without_route method path none d = d
  without_route method path (some table) d = set_entry method (unregister_route path table) d

  module _ (to_upper : String → String) where
    -- `RegisterE`.
    unfoldable pub register_e :
        String → String → Option H → Dispatcher H → Dispatcher H × Option RegisterErr
    register_e method path none d = (d, some no_handler)
    register_e method path (some handler) d =
        let outcome =
          register_route (normalize_plugin_path path) handler
            (routes_or_new (d (method_of to_upper method))) in
        (set_entry (method_of to_upper method) outcome.0 d, outcome.1)

    -- `Unregister`.
    unfoldable pub unregister : String → String → Dispatcher H → Dispatcher H
    unregister method path d =
        without_route (method_of to_upper method) (normalize_plugin_path path)
          (d (method_of to_upper method)) d
