-- ===== src/RateLimiter/Examples.antt =====
-- Tests and instances for src/rate_limiter.rs.
use bevy_simplenet.Common.{◌+◌, ◌-◌, ◌≤◌, ◌≡◌, refl, true, false, [], ◌∷◌, arith}
use bevy_simplenet.RateLimiter.{RateLimitConfig, new, try_count_msg, answers}
use bevy_simplenet.RateLimiter.Bounds.{accepted, AllTrue, answers_burst, answers-Spaced}

abbrev two_in_ten : RateLimitConfig
two_in_ten = record { period = 10; max_count = 2 }

-- Two windows meet in the stretch from 5 to 14: four messages pass, the next does not.
answers_test :
    answers (new two_in_ten) (7 ∷ 8 ∷ 9 ∷ 10 ∷ 12 ∷ 13 ∷ [])
    ≡ true ∷ true ∷ false ∷ true ∷ true ∷ false ∷ []
unfolding answers try_count_msg new
answers_test = refl

answers_burst_example :
    accepted (answers (new two_in_ten) (7 ∷ 8 ∷ 9 ∷ 10 ∷ 12 ∷ 13 ∷ []))
    ≤ ((new two_in_ten).config.max_count - (new two_in_ten).count)
      + (new two_in_ten).config.max_count
unfolding new
answers_burst_example =
    answers_burst (new two_in_ten) 5 (7 ∷ 8 ∷ 9 ∷ 10 ∷ 12 ∷ 13 ∷ []) (omega arith) (omega arith)
      (omega arith) (omega arith)

answers-Spaced_example : AllTrue (answers (new two_in_ten) (3 ∷ 4 ∷ 13 ∷ 14 ∷ 23 ∷ []))
answers-Spaced_example =
    answers-Spaced two_in_ten 1 (3 ∷ 4 ∷ 13 ∷ 14 ∷ 23 ∷ []) refl (omega arith) (omega arith)
      (omega arith)
