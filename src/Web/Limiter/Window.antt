-- ===== src/Web/Limiter/Window.antt =====
-- The requests of one window, and the rounding of delays, in pkg/bear/limiter.go.
use Prim.Native.String.{String}
use text.Mathlib.Text.{◌==◌}
use text.Mathlib.TextEquality.{eq_iff}
use gin_bear.Base.{
  ℕ, ◌+◌, ◌-◌, ◌*◌, ◌/◌, ◌≤◌, ◌<◌, ◌^◌, ◌≡◌, refl, true, false, Bool-cases, inl, inr, some, List,
  [], ◌∷◌, length, leb, if◌then◌else◌, arith,
}
use gin_bear.Base.Int.{pos, leb_ℤ, ◌+ℤ◌, ◌-ℤ◌, wrap, add64, sub64}
use gin_bear.Web.Limiter.{
  MemoryLimiter, is_valid_policy, count_and_test, allow, redis_window_milliseconds,
  retry_after_seconds,
}

-- The requests of one window: the limiter after them, and how many of one key were let through.
unfoldable pub let_through : String → List String → MemoryLimiter → MemoryLimiter × ℕ
let_through key [] l = (l, 0)
let_through key (k ∷ ks) l =
    let rest = let_through key ks (allow k l).0 in
    (rest.0, (if k == key then if (allow k l).1 then 1 else 0 else 0) + rest.1)

-- How many of the requests are of one key.
unfoldable pub requests : String → List String → ℕ
requests key [] = 0
requests key (k ∷ ks) = (if k == key then 1 else 0) + requests key ks

abbrev pub smaller : ℕ → ℕ → ℕ
smaller a b = if leb a b then a else b

allow_valid :
    (key : String) (l : MemoryLimiter)
    → is_valid_policy l.limit l.window ≡ true
    → allow key l ≡ count_and_test key (add64 (l.counts key) (pos 1)) l
unfolding allow
allow_valid key l valid = rw valid refl

one_more : (c : ℕ) → c + 1 < 2 ^ 63 → add64 (pos c) (pos 1) ≡ pos (c + 1)
unfolding add64 wrap ◌+ℤ◌ ◌-ℤ◌
one_more c h = ground arith

-- One request of the key, and the rest of the window.
passes :
    (c m r : ℕ)
    → (if leb_ℤ (pos (c + 1)) (pos m) then 1 else 0) + smaller r (m - (c + 1))
      ≡ smaller (1 + r) (m - c)
unfolding leb_ℤ
passes c m r = ground arith

not_counted : (x r d : ℕ) → x ≡ smaller r d → 0 + x ≡ smaller (0 + r) d
not_counted x r d h = ground arith

-- Of the requests of one key in one window, counted in any order among those of other keys, exactly
-- those are let through that the limit leaves after what the window has counted before. The policy
-- is valid and the number of requests below 2 ^ 63.
pub let_through-limit :
    (key : String) (keys : List String) (l : MemoryLimiter) (c m : ℕ)
    → is_valid_policy l.limit l.window ≡ true
    → l.counts key ≡ pos c
    → l.limit ≡ pos m
    → c + length keys < 2 ^ 63
    → (let_through key keys l).1 ≡ smaller (requests key keys) (m - c)
unfolding let_through requests
let_through-limit key [] l c m valid counted limit h = ground arith
let_through-limit key (k ∷ ks) l c m valid counted limit h =
    rw (allow_valid k l valid) (elim (Bool-cases (k == key)) [
      | inr other ↦
          let rest =
            let_through-limit key ks (count_and_test k (add64 (l.counts k) (pos 1)) l).0 c m valid
              (rw other counted) limit (omega arith) in
          rw other (not_counted _ _ (m - c) rest)
      | inl same ↦
          let bumped : add64 (l.counts k) (pos 1) ≡ pos (c + 1) =
            rw ((eq_iff k key).0 same) (rw counted (one_more c (omega arith))) in
          let rest =
            let_through-limit key ks (count_and_test k (add64 (l.counts k) (pos 1)) l).0 (c + 1) m
              valid (rw same bumped) limit (omega arith) in
          rw same (rw rest (rw bumped (rw limit (passes c m (requests key ks)))))
    ])

-- The window in milliseconds that the Redis limiter hands to its script covers the configured window
-- in nanoseconds, by less than a millisecond more; so a positive window never becomes 0.
pub redis_window_covers :
    (window : ℕ)
    → (window ≤ redis_window_milliseconds window * 1000000)
      × (redis_window_milliseconds window * 1000000 < window + 1000000)
unfolding redis_window_milliseconds
redis_window_covers window = ground arith

rounds_up :
    (d : ℕ)
    → 1 ≤ d
    → d < 2 ^ 62
    → sub64 (add64 (pos d) (pos 1000000000)) (pos 1) ≡ pos (d + 999999999)
unfolding sub64 add64 wrap ◌+ℤ◌ ◌-ℤ◌
rounds_up d h k = ground arith

-- A client that waits as long as the header says has waited out a reported delay, and no second too
-- many: the header is the delay in seconds, rounded up. The delay is positive and below 2 ^ 62.
pub retry_after_covers :
    (d : ℕ)
    → 1 ≤ d
    → d < 2 ^ 62
    → (seconds : ℕ) × (retry_after_seconds (some (pos d)) ≡ pos seconds)
      × (d ≤ seconds * 1000000000)
      × (seconds * 1000000000 < d + 1000000000)
unfolding retry_after_seconds leb_ℤ
retry_after_covers d h k =
    let positive : leb (d + 0) 0 ≡ false = ground arith in
    let some_second : leb (1 + 0) ((d + 999999999) / 1000000000 + 0) ≡ true = ground arith in
    (
      (d + 999999999) / 1000000000,
      rw positive (rw (rounds_up d h k) (rw some_second refl)),
      omega arith,
      omega arith,
    )
