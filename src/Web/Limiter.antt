-- ===== src/Web/Limiter.antt =====
-- The rate limiters of pkg/bear/limiter.go.
pub mod Window
use Prim.Native.String.{String}
use text.Mathlib.Text.{◌==◌}
use gin_bear.Base.{
  ℕ, ◌+◌, ◌-◌, ◌/◌, ◌%◌, Bool, true, false, not, ◌&&◌, ◌||◌, Option, none, some, List, [], ◌∷◌, eqb,
  if◌then◌else◌,
}
use gin_bear.Base.Int.{ℤ, pos, pos_part, leb_ℤ, add64, sub64}

-- `MemoryRateLimiter`: the counts of the window, 0 where the map has no entry. A window is in
-- nanoseconds.
pub record MemoryLimiter : Type 0 where
  pub counts : String → ℤ
  pub limit : ℤ
  pub window : ℤ

-- `validateLimiterPolicy` reports no error.
unfoldable pub is_valid_policy : ℤ → ℤ → Bool
is_valid_policy limit window = not (leb_ℤ limit (pos 0)) && not (leb_ℤ window (pos 0))

abbrev pub count_and_test : String → ℤ → MemoryLimiter → MemoryLimiter × Bool
count_and_test key count l =
    (record l { counts = λ k. if key == k then count else l.counts k }, leb_ℤ count l.limit)

-- `Allow` of the memory limiter.
unfoldable pub allow : String → MemoryLimiter → MemoryLimiter × Bool
allow key l =
    if is_valid_policy l.limit l.window
    then count_and_test key (add64 (l.counts key) (pos 1)) l
    else (l, false)

-- The tick of the limiter's goroutine.
unfoldable pub tick : MemoryLimiter → MemoryLimiter
tick l = record l { counts = λ k. pos 0 }

-- `LimiterFailureMode`; `other_mode` is any other text.
pub data FailureMode : Type 0 where
  unset_mode open_mode closed_mode other_mode : FailureMode

-- `RedisRateLimiter`, with the answer of the script as `Eval` returns it: `none` is an error.
pub record RedisLimiter : Type 0 where
  pub connected : Bool
  pub limit : ℤ
  pub window : ℤ
  pub fail_closed : Bool
  pub failure_mode : FailureMode

abbrev pub is_known_mode : FailureMode → Bool
is_known_mode other_mode = false
is_known_mode _ = true

abbrev pub is_closed_mode : FailureMode → Bool
is_closed_mode closed_mode = true
is_closed_mode _ = false

-- `failClosed`.
unfoldable pub fails_closed : RedisLimiter → Bool
fails_closed l = l.fail_closed || is_closed_mode l.failure_mode

-- `redisWindowMilliseconds` of a window that is not negative.
unfoldable pub redis_window_milliseconds : ℕ → ℕ
redis_window_milliseconds window =
    let whole = window / 1000000 in if eqb (window % 1000000) 0 then whole else whole + 1

-- What an answer of the script, or its error, says.
abbrev pub answer : RedisLimiter → Option ℤ → Bool
answer l none = not (fails_closed l)
answer l (some (pos n)) = eqb n 1
answer l (some _) = false

-- `Allow` of the Redis limiter, with what `Eval` answers on a limit and a window.
unfoldable pub redis_allow : (ℤ → ℕ → Option ℤ) → RedisLimiter → Bool
redis_allow eval l =
    if is_valid_policy l.limit l.window && is_known_mode l.failure_mode
    then if l.connected
      then answer l (eval l.limit (redis_window_milliseconds (pos_part l.window)))
      else not (fails_closed l)
    else false

-- The delay that a limiter reports, or a second.
abbrev pub delay_of : Option ℤ → ℤ
delay_of none = pos 1000000000
delay_of (some d) = if leb_ℤ d (pos 0) then pos 1000000000 else d

-- Whole seconds; a negative number of nanoseconds comes to no second.
abbrev pub div_second : ℤ → ℤ
div_second (pos n) = pos (n / 1000000000)
div_second _ = pos 0

-- `retryAfterSeconds`: of a limiter that reports a delay, or none.
unfoldable pub retry_after_seconds : Option ℤ → ℤ
retry_after_seconds reported =
    let seconds = div_second (sub64 (add64 (delay_of reported) (pos 1000000000)) (pos 1)) in
    if leb_ℤ (pos 1) seconds then seconds else pos 1
