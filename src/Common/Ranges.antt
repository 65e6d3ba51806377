-- ===== src/Common/Ranges.antt =====
-- Checking a property of every number in a range of `2 ^ n` values by evaluation.
use Prim.Native.Nat.{ℕ, zero, suc, ◌+◌, ◌^◌, ◌≤◌, ◌<◌}
use mathlib.Core.Path.{◌≡◌, refl, subst}
use mathlib.Core.Bool.{Bool, true, false, ◌&&◌}
use native.Mathlib.Nat.{pow-suc}
use native.Mathlib.Decide.{dec_lt}
use native.Mathlib.Omega.{arith}

unfoldable pub all_range : ℕ → ℕ → (ℕ → Bool) → Bool
all_range zero lo p = p lo
all_range (suc n) lo p = all_range n lo p && all_range n (lo + 2 ^ n) p

pub and_left : (a b : Bool) → (a && b) ≡ true → a ≡ true
and_left true b h = refl
and_left false b h = h

pub and_right : (a b : Bool) → (a && b) ≡ true → b ≡ true
and_right true b h = h
and_right false true h = refl
and_right false false h = h

pub all_range_sound :
    (n lo : ℕ) (p : ℕ → Bool) (x : ℕ)
    → all_range n lo p ≡ true
    → lo ≤ x
    → x < lo + 2 ^ n
    → p x ≡ true
unfolding all_range
all_range_sound zero lo p x h ge lt = let e : lo ≡ x = omega arith in subst (λ t. p t ≡ true) e h
all_range_sound (suc n) lo p x h ge lt = elim (dec_lt x (lo + 2 ^ n)) [
  | yes below ↦ all_range_sound n lo p x (and_left _ _ h) ge below
  | no above ↦
      all_range_sound n (lo + 2 ^ n) p x (and_right _ _ h) (omega arith)
        (omega (arith, pow-suc 2 n))
]
