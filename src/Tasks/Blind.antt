-- ===== src/Tasks/Blind.antt =====
-- The row of a write whose execution intent is recorded (tasks.go), as an invariant.
mod Steps
mod Pure
pub mod Calls
pub mod Gate
pub mod History
use Prim.Native.String.{String}
use text.Mathlib.Text.{◌==◌}
use gin_bear.Base.{◌≡◌, ◌&&◌, ◌||◌, Bool, true, any, All}
use gin_bear.Tasks.Types.{Status, succeeded, is_running, is_unknown, Task, Db}
use gin_bear.Tasks.Complete.{has_intent}

abbrev pub is_succeeded : Status → Bool
is_succeeded succeeded = true
is_succeeded _ = Bool.false

-- A write with a recorded intent that runs, awaits reconciliation, or has succeeded.
abbrev pub in_doubt : Task → Bool
in_doubt t = has_intent t && (is_running t.status || is_unknown t.status || is_succeeded t.status)

abbrev pub HeldRow : String → Task → Type 0
HeldRow i t = (t.id == i) ≡ true → in_doubt t ≡ true

-- The row `i` is there, and it is in doubt.
pub record Held (i : String) (db : Db) : Type 0 where
  pub each : All (HeldRow i) db.tasks
  pub there : any (λ t. t.id == i) db.tasks ≡ true
