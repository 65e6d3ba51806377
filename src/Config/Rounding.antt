-- ===== src/Config/Rounding.antt =====
-- The ring size that bridge/bridge_config.c derives from a setting, and the mask that indexes the ring.
use native.Mathlib.Nat.{mod-lt, one-le-pow, pow-le-pow_right}
use webos_bridge_64to.Common.{
  ℕ, zero, suc, ◌+◌, ◌-◌, ◌*◌, ◌%◌, ◌^◌, ◌≤◌, ◌<◌, ◌≡◌, refl, Bool, true, not, ◌&&◌, ◌||◌, bit_and,
  ltb, leb, ◌==◌, if◌then◌else◌, arith,
}
use webos_bridge_64to.Common.Bits.{bit_and_mask}
use webos_bridge_64to.Common.Ranges.{all_range, all_range_sound}
use webos_bridge_64to.Config.Slots.{
  u32, is_pow2, round_up_pow2, clamp_slots, slots_of_setting, mask_of_slots,
}

-- The exponent of a ring size: the first `k` from the given one on with `2 ^ k` not below it.
exponent : ℕ → ℕ → ℕ → ℕ
exponent zero k s = k
exponent (suc fuel) k s = let rest = exponent fuel (k + 1) s in if leb s (2 ^ k) then k else rest

-- What `load_ring_slots` makes of a setting in range.
rounded : ℕ → ℕ
unfolding is_pow2 round_up_pow2
rounded v = if not (is_pow2 v) then round_up_pow2 v else v

is_rounded : ℕ → Bool
is_rounded v =
    let k = exponent 16 6 v in
    (rounded v == 2 ^ k) && (leb v (2 ^ k) && (ltb (2 ^ k) (2 * v) && (leb 6 k && leb k 16)))

rounded_table : all_range 16 64 (λ v. is_rounded v || ltb 65536 v) ≡ true
unfolding all_range is_rounded rounded exponent
rounded_table = refl

pub clamp_slots_bounds : (n : ℕ) → (64 ≤ clamp_slots n) × (clamp_slots n ≤ 65536)
unfolding clamp_slots
clamp_slots_bounds n = ground arith

rounded_in_range : (v : ℕ) → 64 ≤ v → v ≤ 65536 → is_rounded v ≡ true
rounded_in_range v lo hi = ground (
  arith,
  all_range_sound 16 64 (λ v. is_rounded v || ltb 65536 v) v rounded_table lo (omega arith),
)

-- What the table says of one value, as orders and equations.
rounded_facts :
    (v : ℕ)
    → is_rounded v ≡ true
    → (k : ℕ) × (rounded v ≡ 2 ^ k) × (v ≤ 2 ^ k) × (2 ^ k < 2 * v) × (6 ≤ k) × (k ≤ 16)
unfolding is_rounded
rounded_facts v h = (exponent 16 6 v, all.0, all.1, all.2, all.3, all.4)
  where
    all :
        (rounded v ≡ 2 ^ exponent 16 6 v)
        × (v ≤ 2 ^ exponent 16 6 v)
        × (2 ^ exponent 16 6 v < 2 * v)
        × (6 ≤ exponent 16 6 v)
        × (exponent 16 6 v ≤ 16)
    all = ground arith

-- Whatever the setting, `load_ring_slots` returns a power of two between 2 ^ 6 and 2 ^ 16: the
-- least one that is not below the setting clamped to its range.
pub slots_of_setting_rounds :
    (n : ℕ)
    → (k : ℕ) × (slots_of_setting n ≡ 2 ^ k)
      × (clamp_slots (u32 n) ≤ 2 ^ k)
      × (2 ^ k < 2 * clamp_slots (u32 n))
      × (6 ≤ k)
      × (k ≤ 16)
unfolding slots_of_setting rounded
slots_of_setting_rounds n =
    let v = clamp_slots (u32 n) in
    let b = clamp_slots_bounds (u32 n) in rounded_facts v (rounded_in_range v b.0 b.1)

pow_bounds : (k : ℕ) → k ≤ 16 → (1 ≤ 2 ^ k) × (2 ^ k ≤ 65536)
pow_bounds k h = (one-le-pow k 2 (omega arith), pow-le-pow_right (omega arith) h)

mask_of_pow : (k : ℕ) → k ≤ 16 → mask_of_slots (2 ^ k) ≡ 2 ^ k - 1
unfolding mask_of_slots
mask_of_pow k h = omega (arith, pow_bounds k h)

-- `seq & mask` is the sequence number modulo the ring size, an index inside the slot array.
pub slot_index_lem :
    (n seq : ℕ)
    → (bit_and seq (mask_of_slots (slots_of_setting n)) ≡ seq % slots_of_setting n)
      × (bit_and seq (mask_of_slots (slots_of_setting n)) < slots_of_setting n)
slot_index_lem n seq =
    let (k, e, lo, hi, six, sixteen) = slots_of_setting_rounds n in
    rw (e, mask_of_pow k sixteen, bit_and_mask k seq) (refl, mod-lt seq (pow_bounds k sixteen).0)
