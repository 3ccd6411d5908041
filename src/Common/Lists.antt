-- ===== src/Common/Lists.antt =====
-- Lists over the native numbers: length, occurrences, and a predicate on all elements.
use Prim.Native.Nat.{ℕ, suc, ◌+◌}
use mathlib.Core.Path.{◌≡◌, refl}
use mathlib.Core.Logic.{◌⊎◌, inl, inr}
use mathlib.Core.List.{List, [], ◌∷◌, ◌++◌, append_assoc}
use native.Mathlib.Omega.{arith}
use bevy_simplenet.Common.Tests.{◌==◌, if◌then◌else◌}

module _ {ℓ} {A : Type ℓ} where
  abbrev pub length : List A → ℕ
  length [] = 0
  length (_ ∷ xs) = suc (length xs)

  pub length-append : (xs ys : List A) → length (xs ++ ys) ≡ length xs + length ys
  length-append [] ys = omega arith
  length-append (x ∷ xs) ys = omega (arith, length-append xs ys)

  abbrev pub All {κ} : (A → Type κ) → List A → Type κ
  All P [] = Unit
  All P (x ∷ xs) = P x × All P xs

  pub All-append {κ} : (P : A → Type κ) (xs ys : List A) → All P xs → All P ys → All P (xs ++ ys)
  All-append P [] ys h k = k
  All-append P (x ∷ xs) ys h k = (h.0, All-append P xs ys h.1 k)

  pub All-middle {κ} :
      (P : A → Type κ) (before after : List A) (e : A) → All P (before ++ e ∷ after) → P e
  All-middle P [] after e h = h.0
  All-middle P (x ∷ before) after e h = All-middle P before after e h.1

  pub All-weaken {κ μ} :
      (P : A → Type κ) (Q : A → Type μ) (xs : List A) → ((x : A) → P x → Q x) → All P xs → All Q xs
  All-weaken P Q [] f h = tt
  All-weaken P Q (x ∷ xs) f h = (f x h.0, All-weaken P Q xs f h.1)

-- How often a number occurs.
abbrev pub count : ℕ → List ℕ → ℕ
count n [] = 0
count n (i ∷ is) = (if i == n then 1 else 0) + count n is

pub count-append :
    (n : ℕ) (left right : List ℕ) → count n (left ++ right) ≡ count n left + count n right
count-append n [] right = omega arith
count-append n (i ∷ left) right = omega (arith, count-append n left right)

module _ {ℓ} {A : Type ℓ} where
  -- An element of a list, with what stands before and after it.
  abbrev pub Has : A → List A → Type ℓ
  Has e l = (before : List A) × (after : List A) × (l ≡ before ++ e ∷ after)

  pub Has-snoc : (e x : A) (l : List A) → Has e l → Has e (l ++ x ∷ [])
  Has-snoc e x l (before, after, h) =
      (before, after ++ x ∷ [], rw h (append_assoc before (e ∷ after) (x ∷ [])))

  pub last-Has : (e : A) (l : List A) → Has e (l ++ e ∷ [])
  last-Has e l = (l, [], refl)

  -- A list with at most one element more.
  abbrev pub Grown : List A → List A → Type ℓ
  Grown l l' = (l' ≡ l) ⊎ (x : A) × (l' ≡ l ++ x ∷ [])

  pub Grown-Has : (e : A) (l l' : List A) → Grown l l' → Has e l → Has e l'
  Grown-Has e l l' (inl same) h = rw same h
  Grown-Has e l l' (inr (x, more)) h = rw more (Has-snoc e x l h)
