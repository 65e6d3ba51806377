-- ===== src/Config/Slots.antt =====
-- bridge/bridge_config.c: `is_pow2`, `round_up_pow2` and the ring size that `load_ring_slots`
-- derives from the setting. `uint32_t` arithmetic wraps at 2 ^ 32.
use webos_bridge_64to.Common.{
  ℕ, ◌+◌, ◌-◌, ◌/◌, ◌%◌, ◌^◌, Bool, not, ◌&&◌, ◌||◌, bit_and, bit_or, ltb, ◌==◌, if◌then◌else◌,
}

abbrev pub ring_slots_default : ℕ
ring_slots_default = 4096

abbrev pub ring_slots_min : ℕ
ring_slots_min = 64

abbrev pub ring_slots_max : ℕ
ring_slots_max = 65536

abbrev pub u32 : ℕ → ℕ
u32 n = n % 2 ^ 32

-- `v - 1u` wraps at 0.
unfoldable pub is_pow2 : ℕ → Bool
is_pow2 v = not (v == 0) && (bit_and v (u32 (v + 2 ^ 32 - 1)) == 0)

-- `v |= v >> k`
abbrev smear : ℕ → ℕ → ℕ
smear k v = bit_or v (v / 2 ^ k)

unfoldable pub round_up_pow2 : ℕ → ℕ
round_up_pow2 v =
    if ltb v 2 then 1 else u32 (smear 16 (smear 8 (smear 4 (smear 2 (smear 1 (v - 1))))) + 1)

-- The out-of-range branch of `load_ring_slots`.
unfoldable pub clamp_slots : ℕ → ℕ
clamp_slots slots =
    if ltb slots ring_slots_min || ltb ring_slots_max slots
    then if ltb slots ring_slots_min then ring_slots_min else ring_slots_max
    else slots

-- `load_ring_slots` from `(uint32_t)g_cfg.ring_slots` on.
unfoldable pub slots_of_setting : ℕ → ℕ
unfolding clamp_slots is_pow2 round_up_pow2
slots_of_setting ring_slots =
    let slots = clamp_slots (u32 ring_slots) in
    if not (is_pow2 slots) then round_up_pow2 slots else slots

-- `bridge_config_ring_mask`
unfoldable pub mask_of_slots : ℕ → ℕ
mask_of_slots slots = u32 (slots + 2 ^ 32 - 1)
