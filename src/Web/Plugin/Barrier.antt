-- ===== src/Web/Plugin/Barrier.antt =====
-- `pluginRegistrationBarrier` of pkg/bear/plugin.go. The channel `changed` is a number that each close
-- of it replaces by the next one; a transition under way is one bit.
use gin_bear.Base.{ℕ, ◌+◌, ◌-◌, Bool, true, false, ltb, if◌then◌else◌}

pub record Barrier : Type 0 where
  pub registrations : ℕ
  pub blocked : Bool
  pub transition : Bool
  pub changed : ℕ

abbrev pub new_barrier : Barrier
new_barrier = record { registrations = 0; blocked = false; transition = false; changed = 0 }

-- `begin`; `false` is its error.
unfoldable pub begin : Barrier → Barrier × Bool
begin b = if b.blocked then (b, false) else (record b { registrations = b.registrations + 1 }, true)

-- `end`.
unfoldable pub end : Barrier → Barrier
end b =
    if ltb 0 b.registrations
    then record b { registrations = b.registrations - 1; changed = b.changed + 1 }
    else b

-- Where a call of `closeWithCommit` stands when it gives up the mutex: it has returned, with its commit
-- made or not, or it waits for another call or for a registration to end.
pub data Closing : Type 0 where
  closed_before commits : Closing
  waits_for_transition : Closing
  waits_for_change : ℕ → Closing

-- The loop over the registrations, with the mutex held.
unfoldable pub drain : Barrier → Barrier × Closing
drain b =
    if ltb 0 b.registrations
    then (b, waits_for_change b.changed)
    else (record b { transition = false }, commits)

-- The head of `closeWithCommit`.
unfoldable pub start_close : Barrier → Barrier × Closing
start_close b =
    if b.blocked
    then (if b.transition then (b, waits_for_transition) else (b, closed_before))
    else drain (record b { blocked = true; transition = true })

-- The context ends while the call waits for a registration.
unfoldable pub give_up : Barrier → Barrier
give_up b = record b { blocked = false; transition = false }
