-- ===== src/TextPingPong/Decimal.antt =====
-- Numbers as texts: what is written is read back.
use bevy_simplenet.Common.{
  ℕ, zero, suc, ◌+◌, ◌*◌, ◌/◌, ◌%◌, ◌^◌, ◌<◌, ◌≡◌, refl, ◌∙◌, [], ◌∷◌, some, arith, ◌==◌, Bool,
  true, false, ltb, Bool-cases, inl, inr,
}
use native.Mathlib.Nat.{pow-suc}
use bevy_simplenet.Common.Bytes.{Bytes}
use bevy_simplenet.TextPingPong.{scan, from_str_radix, digits, display}

-- Reading the last digit behind the others gives the number.
scan_last : (n : ℕ) (out : Bytes) → n < 2 ^ 128 → scan ((b'0' + n % 10) ∷ out) (n / 10) ≡ scan out n
unfolding scan
scan_last n out h = ground arith

pow_128 : 2 ^ 128 < 10 ^ 39
pow_128 = omega arith

scan-digits :
    (fuel n : ℕ) (out : Bytes)
    → n < 10 ^ fuel
    → n < 2 ^ 128
    → 0 < n
    → scan (digits fuel n out) 0 ≡ scan out n
unfolding digits
scan-digits zero n out h k pos = absurd (omega arith)
scan-digits (suc fuel) n out h k pos =
    let last = scan_last n out k in
    elim (Bool-cases (n / 10 == 0)) [
      | inl done ↦ ground (arith, last)
      | inr more ↦
          let wide : 10 ^ suc fuel ≡ 10 ^ fuel * 10 = pow-suc 10 fuel in
          let smaller : n / 10 < 10 ^ fuel = omega arith in
          let some_left : 0 < n / 10 = ground arith in
          let rest =
            scan-digits fuel (n / 10) ((b'0' + n % 10) ∷ out) smaller (omega arith) some_left in
          rw more (rest ∙ last)
    ]

-- A text that begins with no sign.
unfoldable is_unsigned : Bytes → Bool
is_unsigned [] = false
is_unsigned (c ∷ text) = ltb b'+' c

digits-is_unsigned :
    (fuel n : ℕ) (out : Bytes) → is_unsigned out ≡ true → is_unsigned (digits fuel n out) ≡ true
unfolding digits is_unsigned
digits-is_unsigned zero n out h = h
digits-is_unsigned (suc fuel) n out h =
    let rest = digits-is_unsigned fuel (n / 10) ((b'0' + n % 10) ∷ out) in ground (arith, rest)

some_digits-is_unsigned : (fuel n : ℕ) (out : Bytes) → is_unsigned (digits (suc fuel) n out) ≡ true
unfolding digits is_unsigned
some_digits-is_unsigned fuel n out =
    let rest = digits-is_unsigned fuel (n / 10) ((b'0' + n % 10) ∷ out) in ground (arith, rest)

display-is_unsigned : (n : ℕ) → is_unsigned (display n) ≡ true
unfolding display
display-is_unsigned n = some_digits-is_unsigned 38 n []

from_str_radix-scan : (text : Bytes) → is_unsigned text ≡ true → from_str_radix text ≡ scan text 0
unfolding from_str_radix is_unsigned
from_str_radix-scan [] h = absurd (ground (arith, h))
from_str_radix-scan (c ∷ []) h = refl
from_str_radix-scan (c ∷ d ∷ text) h = ground arith

-- A `u128` that is written in decimal is read back, zero included: `u128::from_str_radix(_, 10)`
-- of the text that `format!` writes is the number.
pub from_str_radix-display : (n : ℕ) → n < 2 ^ 128 → from_str_radix (display n) ≡ some n
unfolding from_str_radix scan digits display
from_str_radix-display zero h = refl
from_str_radix-display (suc n) h =
    from_str_radix-scan (display (suc n)) (display-is_unsigned (suc n))
    ∙ scan-digits 39 (suc n) [] (omega arith) h (omega arith)
