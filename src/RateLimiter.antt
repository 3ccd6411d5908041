-- ===== src/RateLimiter.antt =====
-- src/rate_limiter.rs. A `Duration` is its number of nanoseconds; the clock is not modelled, the
-- time that `timer.elapsed()` returns is an argument of each call.
pub mod Bounds
pub mod Examples
use bevy_simplenet.Common.{
  ℕ, ◌+◌, ◌*◌, ◌-◌, ◌%◌, ◌^◌, Bool, true, false, List, [], ◌∷◌, ltb, leb, if◌then◌else◌,
}

-- The greatest `Duration`, `u64::MAX` seconds and 999,999,999 nanoseconds.
abbrev pub duration_max : ℕ
duration_max = 18446744073709551615999999999

-- `Duration::saturating_add`.
abbrev pub saturating_add : ℕ → ℕ → ℕ
saturating_add a b = if leb (a + b) duration_max then a + b else duration_max

pub record RateLimitConfig : Type 0 where
  pub period : ℕ
  pub max_count : ℕ  -- u32

-- `RateLimitConfig::default`.
unfoldable pub default_config : RateLimitConfig
default_config = record { period = 100000000; max_count = 10 }

pub record RateLimitTracker : Type 0 where
  pub config : RateLimitConfig
  pub next_checkpoint_time : ℕ
  pub count : ℕ  -- u64

unfoldable pub new : RateLimitConfig → RateLimitTracker
new config = record { config = config; next_checkpoint_time = config.period; count = 0 }

-- The state after the check for a new tracking period.
checkpoint : RateLimitTracker → ℕ → RateLimitTracker
checkpoint s msg_time =
    if leb s.next_checkpoint_time msg_time
    then record s { next_checkpoint_time = saturating_add msg_time s.config.period; count = 0 }
    else s

-- `count += 1` wraps as in a release build.
increment : RateLimitTracker → RateLimitTracker
increment s = record s { count = (s.count + 1) % 2 ^ 64 }

unfoldable pub try_count_msg : RateLimitTracker → ℕ → RateLimitTracker × Bool
unfolding checkpoint increment
try_count_msg s msg_time =
    let s' = increment (checkpoint s msg_time) in
    if ltb s'.config.max_count s'.count then (s', false) else (s', true)

-- The answers to messages that arrive at the given times.
pub answers : RateLimitTracker → List ℕ → List Bool
answers s [] = []
answers s (t ∷ ts) = let (s', b) = try_count_msg s t in b ∷ answers s' ts
