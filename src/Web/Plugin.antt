-- ===== src/Web/Plugin.antt =====
-- The dynamic routes of pkg/bear/plugin.go. A handler is a value of any type.
pub mod Paths
pub mod Table
pub mod Shapes
pub mod Order
pub mod Best
pub mod Winner
pub mod Params
pub mod Barrier
pub mod Closed
mod Tests
pub mod Ties
pub mod Histories
use Prim.Native.String.{String}
use gin_bear.Base.{Bool, Option, List}

-- `pluginRoute`.
pub record Route (H : Type 0) : Type 0 where
  pub handler : H
  pub segments : List String
  pub dynamic : Bool

-- `pluginMethodRoutes`; a Go map is a function that is `none` where the map has no entry.
pub record MethodRoutes (H : Type 0) : Type 0 where
  pub routes : String → Option (Route H)
  pub shapes : String → Option String
  pub order : List String

-- `PluginDispatcher.handlers`.
abbrev pub Dispatcher : Type 0 → Type 0
Dispatcher H = String → Option (MethodRoutes H)

-- `gin.Param`.
pub record Param : Type 0 where
  pub key : String
  pub value : String
