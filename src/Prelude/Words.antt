-- ===== src/Prelude/Words.antt =====
-- Results of code that may panic, machine words, and equality of sequences of numbers.
use Prim.Native.Nat.{ℕ, ◌-◌, ◌*◌, ◌^◌, min, compare, Ordering}
use mathlib.Core.Path.{◌≡◌, refl, ap₂}
use mathlib.Core.Logic.{◌↔◌}
use mathlib.Core.Bool.{Bool, true, false, ◌&&◌}
use mathlib.Core.List.{List, [], ◌∷◌}
use native.Mathlib.Omega.{arith}

-- What a call gives: a value, or a panic.
pub data Outcome {ℓ} (A : Type ℓ) : Type ℓ where
  returns : A → Outcome A
  panics : Outcome A

abbrev pub then_run {ℓ κ} : {A : Type ℓ} {B : Type κ} → Outcome A → (A → Outcome B) → Outcome B
then_run (returns a) f = f a
then_run panics f = panics

-- Signed integers; `negsuc n` is -(n + 1).
pub data ℤ : Type 0 where
  pos : ℕ → ℤ
  negsuc : ℕ → ℤ

-- `u128::MAX` plus one.
abbrev pub u128_mod : ℕ
u128_mod = 2 ^ 128

-- `as u128`, which keeps the two's complement.
abbrev pub as_u128 : ℤ → ℕ
as_u128 (pos n) = n
as_u128 (negsuc n) = u128_mod - 1 - n

-- `saturating_mul` on `u128`.
abbrev pub saturating_mul : ℕ → ℕ → ℕ
saturating_mul a b = min (a * b) (u128_mod - 1)

abbrev pub nat_eq : ℕ → ℕ → Bool
nat_eq a b = elim (compare a b) [ Ordering.eq ↦ true | _ ↦ false ]

unfoldable pub same_codes : List ℕ → List ℕ → Bool
same_codes [] [] = true
same_codes [] (y ∷ ys) = false
same_codes (x ∷ xs) [] = false
same_codes (x ∷ xs) (y ∷ ys) = nat_eq x y && same_codes xs ys

pub same_codes_iff : (xs ys : List ℕ) → (same_codes xs ys ≡ true) ↔ (xs ≡ ys)
unfolding same_codes
same_codes_iff [] [] = (λ h. refl, λ h. refl)
same_codes_iff [] (y ∷ ys) = (λ h. absurd (cc), λ h. absurd (cc))
same_codes_iff (x ∷ xs) [] = (λ h. absurd (cc), λ h. absurd (cc))
same_codes_iff (x ∷ xs) (y ∷ ys) =
    let ih = same_codes_iff xs ys in
    (λ h. ap₂ (λ a b. a ∷ b) (ground arith) (ih.0 (ground arith)), λ h. ground (arith, ih))
