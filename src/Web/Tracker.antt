-- ===== src/Web/Tracker.antt =====
-- `activeHandlerTracker` of pkg/bear/handler_tracker.go. Channels are numbered in the order in which
-- they are made; the mutex makes each call one step.
pub mod Drain
use gin_bear.Base.{
  ℕ, suc, ◌+◌, ◌-◌, Bool, true, false, Option, none, some, List, [], ◌∷◌, any, eqb, if◌then◌else◌,
}

-- `activeHandlerTracker`: `idle` is the number of its channel, `done` the channels that are closed.
pub record Tracker : Type 0 where
  pub active : ℕ
  pub idle : ℕ
  pub done : List ℕ
  pub closed : Bool

-- Whether a channel is closed.
unfoldable pub is_done : ℕ → List ℕ → Bool
is_done channel done = any (eqb channel) done

-- `newActiveHandlerTracker`: its channel is closed at once.
abbrev pub new_tracker : Tracker
new_tracker = record { active = 0; idle = 0; done = 0 ∷ []; closed = false }

-- `begin`: the tracker after it, and whether the handler may run.
unfoldable pub begin : Tracker → Tracker × Bool
begin t = if t.closed then (t, false) else (
  record t { active = t.active + 1; idle = if eqb t.active 0 then t.idle + 1 else t.idle },
  true,
)

-- `close(t.idle)`, which panics on a closed channel.
unfoldable pub close_idle : Tracker → Option Tracker
close_idle t = if is_done t.idle t.done then none else some (record t { done = t.idle ∷ t.done })

-- `end`; `none` is a panic.
unfoldable pub end : Tracker → Option Tracker
end t =
    if eqb t.active 0
    then some t
    else let left = record t { active = t.active - 1 } in
      if eqb left.active 0 then close_idle left else some left

-- `stopAccepting`.
unfoldable pub stop_accepting : Tracker → Tracker
stop_accepting t = record t { closed = true }

-- The channel on which `wait` waits, if it waits at all.
unfoldable pub waits_on : Tracker → Option ℕ
waits_on t = if eqb t.active 0 then none else some t.idle
