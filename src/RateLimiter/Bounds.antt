-- ===== src/RateLimiter/Bounds.antt =====
-- How many messages src/rate_limiter.rs accepts: never too many, and all of a client that keeps
-- the limit.
use bevy_simplenet.Common.{
  ℕ, zero, suc, ◌+◌, ◌-◌, ◌^◌, ◌≤◌, ◌<◌, ◌≡◌, Bool, true, List, [], ◌∷◌, arith, length, All,
  if◌then◌else◌,
}
use bevy_simplenet.RateLimiter.{
  RateLimitConfig, RateLimitTracker, duration_max, saturating_add, new, try_count_msg, answers,
}

-- How many answers are yes.
abbrev pub accepted : List Bool → ℕ
accepted [] = 0
accepted (b ∷ bs) = (if b then 1 else 0) + accepted bs

-- Within one tracking period at most what is left of the limit is accepted.
answers_within :
    (s : RateLimitTracker) (ts : List ℕ)
    → s.count + length ts < 2 ^ 64
    → All (λ t. t < s.next_checkpoint_time) ts
    → accepted (answers s ts) ≤ s.config.max_count - s.count
unfolding answers try_count_msg
answers_within s [] h w = omega arith
answers_within s (t ∷ ts) h w = ground (arith, answers_within (record s { count = s.count + 1 }) ts)

-- A window that opens inside the stretch outlasts it.
within_of_burst :
    (t start period : ℕ) (ts : List ℕ)
    → start ≤ t
    → start + period ≤ duration_max
    → All (λ u. (start ≤ u) × (u < start + period)) ts
    → All (λ u. u < saturating_add t period) ts
within_of_burst t start period [] h fits w = tt
within_of_burst t start period (u ∷ ts) h fits w =
    (ground arith, within_of_burst t start period ts h fits w.1)

-- Of the messages within one stretch of a period, in any order of times and whatever the state
-- before, at most what is left of the count and once more the limit are accepted. The counts fit
-- 64 bits and the end of the stretch is a duration.
pub answers_burst :
    (s : RateLimitTracker) (start : ℕ) (ts : List ℕ)
    → s.count + length ts < 2 ^ 64
    → length ts < 2 ^ 64
    → start + s.config.period ≤ duration_max
    → All (λ t. (start ≤ t) × (t < start + s.config.period)) ts
    → accepted (answers s ts) ≤ (s.config.max_count - s.count) + s.config.max_count
unfolding answers try_count_msg
answers_burst s start [] h l fits w = omega arith
answers_burst s start (t ∷ ts) h l fits w = ground (
  arith,
  answers_burst (record s { count = s.count + 1 }) start ts,
  answers_within (record s { count = 1; next_checkpoint_time = saturating_add t s.config.period })
      ts,
  within_of_burst t start s.config.period ts,
)

-- The message number `i` from here, if there is one, arrives at `bound` or later.
abbrev pub Late : ℕ → ℕ → List ℕ → Type 0
Late i bound [] = Unit
Late zero bound (t ∷ ts) = bound ≤ t
Late (suc i) bound (t ∷ ts) = Late i bound ts

-- Of any `suc n` messages in a row, the last arrives a period or more after the first.
abbrev pub Spaced : ℕ → ℕ → List ℕ → Type 0
Spaced n period [] = Unit
Spaced n period (t ∷ ts) = Late n (t + period) (t ∷ ts) × Spaced n period ts

abbrev pub AllTrue : List Bool → Type 0
AllTrue = All (λ b. b ≡ true)

Late-mono : (i a b : ℕ) (ts : List ℕ) → a ≤ b → Late i b ts → Late i a ts
Late-mono i a b [] h l = tt
Late-mono zero a b (t ∷ ts) h l = omega arith
Late-mono (suc i) a b (t ∷ ts) h l = Late-mono i a b ts h l

-- `left` messages may still come before the window ends.
answers_left :
    (s : RateLimitTracker) (n left : ℕ) (ts : List ℕ)
    → s.config.max_count ≡ suc n
    → suc n < 2 ^ 64
    → s.count + left ≡ suc n
    → Late left s.next_checkpoint_time ts
    → Spaced (suc n) s.config.period ts
    → AllTrue (answers s ts)
unfolding answers try_count_msg
answers_left s n left [] e small c l sp = tt
answers_left s n zero (t ∷ ts) e small c l sp = ground (
  arith,
  answers_left (record s { count = 1; next_checkpoint_time = saturating_add t s.config.period }) n n
      ts,
  Late-mono n (saturating_add t s.config.period) (t + s.config.period) ts,
)
answers_left s n (suc left) (t ∷ ts) e small c l sp = ground (
  arith,
  answers_left (record s { count = 1; next_checkpoint_time = saturating_add t s.config.period }) n n
      ts,
  answers_left (record s { count = s.count + 1 }) n left ts,
  Late-mono n (saturating_add t s.config.period) (t + s.config.period) ts,
)

-- A client that never sends more than the limit in one period is never refused: if the first
-- period ends before message number `max_count + 1`, and of any `max_count + 1` messages in a row
-- the last comes a period or more after the first, then every message is accepted.
pub answers-Spaced :
    (c : RateLimitConfig) (n : ℕ) (ts : List ℕ)
    → c.max_count ≡ suc n
    → suc n < 2 ^ 32
    → Late (suc n) c.period ts
    → Spaced (suc n) c.period ts
    → AllTrue (answers (new c) ts)
unfolding new
answers-Spaced c n ts e small l sp =
    answers_left (new c) n (suc n) ts e (omega arith) (omega arith) l sp
