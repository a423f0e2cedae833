-- ===== src/Web/Tests.antt =====
-- Runs of the tracker and of the limiters on small inputs.

use gin_bear.Base.{ℕ, ◌*◌, ◌+◌, ◌-◌, ◌≤◌, ◌<◌, ◌≡◌, refl, true, false, some, [], ◌∷◌, arith}
use gin_bear.Base.Int.{pos, leb_ℤ}
use gin_bear.Web.Tracker.{Tracker, new_tracker, is_done, begin, close_idle, end, stop_accepting}
use gin_bear.Web.Tracker.Drain.{fresh, begins, ends, stops, Fits, CanEnd, Reaches-Fits}
use gin_bear.Web.Limiter.{
  MemoryLimiter, is_valid_policy, redis_window_milliseconds, retry_after_seconds,
}
use gin_bear.Web.Limiter.Window.{
  let_through, requests, smaller, let_through-limit, redis_window_covers, retry_after_covers,
}

abbrev one_handler : Tracker
one_handler = record { active = 1; idle = 1; done = 0 ∷ []; closed = false }

abbrev drained : Tracker
drained = record { active = 0; idle = 1; done = 1 ∷ 0 ∷ []; closed = true }

one_begins : begin new_tracker ≡ (one_handler, true)
unfolding begin
one_begins = refl

last_ends : end (stop_accepting one_handler) ≡ some drained
unfolding end stop_accepting close_idle is_done
last_ends = refl

Reaches-Fits_example : Fits (stop_accepting one_handler) 1 × CanEnd (stop_accepting one_handler) 1
Reaches-Fits_example = Reaches-Fits (stops (begins fresh one_begins))

last-Fits : Fits drained 0
last-Fits = (Reaches-Fits (ends (stops (begins fresh one_begins)) last_ends)).0

abbrev two_a_second : MemoryLimiter
two_a_second = record { counts = λ k. pos 0; limit = pos 2; window = pos 1000000000 }

valid_policy : is_valid_policy (pos 2) (pos 1000000000) ≡ true
unfolding is_valid_policy leb_ℤ
valid_policy = refl

let_through-limit_example :
    (let_through "a" ("a" ∷ "b" ∷ "a" ∷ "a" ∷ []) two_a_second).1
    ≡ smaller (requests "a" ("a" ∷ "b" ∷ "a" ∷ "a" ∷ [])) (2 - 0)
let_through-limit_example =
    let_through-limit "a" ("a" ∷ "b" ∷ "a" ∷ "a" ∷ []) two_a_second 0 2 valid_policy refl refl
      (omega arith)

retry_after_covers_example :
    (seconds : ℕ) × (retry_after_seconds (some (pos 1500000000)) ≡ pos seconds)
    × (1500000000 ≤ seconds * 1000000000)
    × (seconds * 1000000000 < 1500000000 + 1000000000)
retry_after_covers_example = retry_after_covers 1500000000 (omega arith) (omega arith)

redis_window_covers_example :
    (1500001 ≤ redis_window_milliseconds 1500001 * 1000000)
    × (redis_window_milliseconds 1500001 * 1000000 < 1500001 + 1000000)
redis_window_covers_example = redis_window_covers 1500001
