-- ===== src/Common/Bits.antt =====
-- `&` and `|` at variables: one binary digit at a time, and the masks and fields of the code.
use Prim.Native.Nat.{
  ℕ, zero, suc, ◌+◌, ◌-◌, ◌*◌, ◌/◌, ◌%◌, ◌^◌, ◌≤◌, ◌<◌, min, max, bit_and, bit_or, digits,
  bit_and-bitwise, bit_or-bitwise,
}
use mathlib.Core.Path.{◌≡◌, refl, ap, ◌∙◌}
use native.Mathlib.Nat.{pow-suc, one-le-pow}
use native.Mathlib.Decide.{dec_lt}
use native.Mathlib.Omega.{arith}

-- What holds of 0, and of a positive number if of its half, holds of all numbers.
halving {ℓ} :
    (P : ℕ → Type ℓ) → P 0 → ((a : ℕ) → 0 < a → P (a / 2) → P a) → (bound a : ℕ) → a ≤ bound → P a
halving P base step bound zero h = base
halving P base step zero (suc a) h = absurd (omega arith)
halving P base step (suc bound) (suc a) h =
    step (suc a) (omega arith) (halving P base step bound (suc a / 2) (omega arith))

-- The library defines a bitwise operation by its digits, with fuel for the first operand.
module _ (rest : ℕ → ℕ) (bit : ℕ → ℕ → ℕ) where
  one_more_fuel : (f a b : ℕ) → a ≤ f → digits rest bit (suc f) a b ≡ digits rest bit f a b
  one_more_fuel zero zero b h = refl
  one_more_fuel zero (suc a) b h = absurd (omega arith)
  one_more_fuel (suc f) zero b h = refl
  one_more_fuel (suc f) (suc a) b h =
      ap (λ t. t * 2 + bit (suc a % 2) (b % 2)) (one_more_fuel f (suc a / 2) (b / 2) (omega arith))

  enough_fuel : (f a b : ℕ) → a ≤ f → digits rest bit f a b ≡ digits rest bit a a b
  enough_fuel zero a b h = let e : 0 ≡ a = omega arith in ap (λ n. digits rest bit n a b) e
  enough_fuel (suc f) a b h =
      let fewer = enough_fuel f a b in
      elim (dec_lt f a) [
        | yes over ↦ let e : suc f ≡ a = omega (arith, over) in ap (λ n. digits rest bit n a b) e
        | no under ↦ one_more_fuel f a b (omega (arith, under)) ∙ fewer (omega (arith, under))
      ]

  -- The lowest digit, if it is the lowest digit of the second operand when the first is 0.
  digits_step :
      ((b : ℕ) → rest b ≡ rest (b / 2) * 2 + bit 0 (b % 2))
      → (a b : ℕ)
      → digits rest bit a a b ≡ digits rest bit (a / 2) (a / 2) (b / 2) * 2 + bit (a % 2) (b % 2)
  digits_step low zero b = low b
  digits_step low (suc a) b =
      ap (λ t. t * 2 + bit (suc a % 2) (b % 2)) (enough_fuel a (suc a / 2) (b / 2) (omega arith))

pub bit_and_step : (a b : ℕ) → bit_and a b ≡ bit_and (a / 2) (b / 2) * 2 + min (a % 2) (b % 2)
bit_and_step a b =
    rw (bit_and-bitwise a b, bit_and-bitwise (a / 2) (b / 2))
      (digits_step (λ _. 0) min (λ b. omega arith) a b)

pub bit_or_step : (a b : ℕ) → bit_or a b ≡ bit_or (a / 2) (b / 2) * 2 + max (a % 2) (b % 2)
bit_or_step a b =
    rw (bit_or-bitwise a b, bit_or-bitwise (a / 2) (b / 2))
      (digits_step (λ y. y) max (λ b. omega arith) a b)

pub bit_and-zero : (a : ℕ) → bit_and a 0 ≡ 0
bit_and-zero a =
    halving (λ a. bit_and a 0 ≡ 0) refl (λ a pos half. omega (arith, bit_and_step a 0, half)) a a
      (omega arith)

pub bit_or-zero : (a : ℕ) → bit_or a 0 ≡ a
bit_or-zero a =
    halving (λ a. bit_or a 0 ≡ a) refl (λ a pos half. omega (arith, bit_or_step a 0, half)) a a
      (omega arith)

pub bit_and_self : (a : ℕ) → bit_and a a ≡ a
bit_and_self a =
    halving (λ a. bit_and a a ≡ a) refl (λ a pos half. omega (arith, bit_and_step a a, half)) a a
      (omega arith)

-- The digits of a remainder by an even number.
mod_double : (a m : ℕ) → 0 < m → a % (m * 2) ≡ a / 2 % m * 2 + a % 2
mod_double a m h = grind arith

-- `a & (2 ^ k - 1)` keeps the low `k` bits.
pub bit_and_mask : (k a : ℕ) → bit_and a (2 ^ k - 1) ≡ a % 2 ^ k
bit_and_mask zero a = omega (arith, bit_and-zero a)
bit_and_mask (suc k) a = ground (
  arith,
  pow-suc 2 k,
  one-le-pow k 2,
  bit_and_step a (2 ^ suc k - 1),
  bit_and_mask k (a / 2),
  mod_double a (2 ^ k),
)

-- `(q << k) | r` is a sum when `r` fits `k` bits.
pub bit_or_fields : (k q r : ℕ) → r < 2 ^ k → bit_or (q * 2 ^ k) r ≡ q * 2 ^ k + r
bit_or_fields zero q r h = ground (arith, bit_or-zero q)
bit_or_fields (suc k) q r h = ground (
  arith,
  pow-suc 2 k,
  ap (λ (t : ℕ). q * t) (pow-suc 2 k),
  bit_or_step (q * 2 ^ suc k) r,
  bit_or_fields k q (r / 2),
)
