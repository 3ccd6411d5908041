-- ===== src/Server/Counter.antt =====
-- `ConnectionCounter` and `PendingCounter` of src/server/connection_validation.rs, which are the
-- same code over an `AtomicU64`.
use bevy_simplenet.Common.{ℕ, ◌+◌, ◌-◌, ◌%◌, ◌^◌, ◌<◌, ◌≡◌, ◌==◌, if◌then◌else◌, arith}

pub record Counter : Type 0 where
  pub counter : ℕ

unfoldable pub default : Counter
default = record { counter = 0 }

unfoldable pub load : Counter → ℕ
load c = c.counter

unfoldable pub increment : Counter → Counter
increment c = record { counter = (c.counter + 1) % 2 ^ 64 }

-- `fetch_sub` returns the value before the subtraction, and the test compares that with `u64::MAX`.
unfoldable pub decrement : Counter → Counter
unfolding increment
decrement c =
    let c' : Counter = record { counter = (c.counter + 2 ^ 64 - 1) % 2 ^ 64 } in
    if c.counter == 2 ^ 64 - 1 then increment c' else c'

-- A decrement of a counter that is neither at 0 nor at the greatest value takes 1 away.
pub decrement_pos :
    (c : Counter) → 0 < c.counter → c.counter < 2 ^ 64 - 1 → (decrement c).counter ≡ c.counter - 1
unfolding decrement
decrement_pos c h k = ground arith

pub increment_small : (c : Counter) → c.counter < 2 ^ 64 - 1 → (increment c).counter ≡ c.counter + 1
unfolding increment
increment_small c h = omega arith
