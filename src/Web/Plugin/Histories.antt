-- ===== src/Web/Plugin/Histories.antt =====
-- Histories of registrations and removals in the dispatcher of pkg/bear/plugin.go.
use mathlib.Core.Option.{some-injective}
use Prim.Native.String.{String}
use text.Mathlib.Text.{◌==◌}
use gin_bear.Base.{◌≡◌, refl, subst, inl, inr, Bool-cases, Option, none, some, List, [], ◌∷◌}
use gin_bear.Web.Plugin.{MethodRoutes, Dispatcher}
use gin_bear.Web.Plugin.Paths.{normalize_plugin_path}
use gin_bear.Web.Plugin.Table.{
  set_entry, routes_or_new, method_of, register_e, without_route, unregister,
}
use gin_bear.Web.Plugin.Shapes.{
  Sound, no_routes-Sound, register_route-Sound, unregister_route-Sound,
}

-- A call of the dispatcher.
pub data Call (H : Type 0) : Type 0 where
  registers : String → String → Option H → Call H
  unregisters : String → String → Call H

module _ {H : Type 0} (to_upper : String → String) where
  abbrev pub call : Call H → Dispatcher H → Dispatcher H
  call (registers method path handler) d = (register_e to_upper method path handler d).0
  call (unregisters method path) d = unregister to_upper method path d

  abbrev pub calls : List (Call H) → Dispatcher H → Dispatcher H
  calls [] d = d
  calls (c ∷ cs) d = calls cs (call c d)

  abbrev pub AllSound : Dispatcher H → Type 0
  AllSound d = (method : String) (table : MethodRoutes H) → d method ≡ some table → Sound table

  set_entry-AllSound :
      (d : Dispatcher H) (key : String) (table : MethodRoutes H)
      → AllSound d
      → Sound table
      → AllSound (set_entry key table d)
  set_entry-AllSound d key table all sound method found h = elim (Bool-cases (method == key)) [
    | inl same ↦ let h' = rw same at h in subst (λ t. Sound t) (some-injective _ _ h') sound
    | inr other ↦ all method found (rw other at h)
  ]

  routes_or_new-Sound :
      (d : Dispatcher H) (key : String)
      → AllSound d
      → (o : Option (MethodRoutes H)) → d key ≡ o
      → Sound (routes_or_new o)
  routes_or_new-Sound d key all none h = no_routes-Sound
  routes_or_new-Sound d key all (some table) h = all key table h

  call-AllSound : (c : Call H) (d : Dispatcher H) → AllSound d → AllSound (call c d)
  unfolding register_e unregister
  call-AllSound (registers method path none) d all = all
  call-AllSound (registers method path (some handler)) d all =
      set_entry-AllSound d (method_of to_upper method) _ all (
        register_route-Sound _ (routes_or_new-Sound d (method_of to_upper method) all _ refl)
          (normalize_plugin_path path) handler)
  call-AllSound (unregisters method path) d all = go _ refl
    where
      go :
          (o : Option (MethodRoutes H))
          → d (method_of to_upper method) ≡ o
          → AllSound (without_route (method_of to_upper method) (normalize_plugin_path path) o d)
      go none h = all
      go (some table) h =
          set_entry-AllSound d (method_of to_upper method) _ all
            (unregister_route-Sound table (all _ table h) (normalize_plugin_path path))

  -- Every table that registrations and removals build from an empty dispatcher is sound.
  pub calls-AllSound : (cs : List (Call H)) (d : Dispatcher H) → AllSound d → AllSound (calls cs d)
  calls-AllSound [] d all = all
  calls-AllSound (c ∷ cs) d all = calls-AllSound cs (call c d) (call-AllSound c d all)
