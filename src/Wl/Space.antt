-- ===== src/Wl/Space.antt =====
-- stub/bridge_core.c: where the data of one Wayland request goes.
use webos_bridge_64to.Common.{
  ℕ, ◌+◌, ◌*◌, ◌/◌, ◌%◌, ◌^◌, ◌≤◌, ◌<◌, ◌≡◌, none, some, arith, refl, ◌⊎◌, inl, inr,
}
use native.Mathlib.Decide.{dec_lt}
use webos_bridge_64to.Arena.Alloc.{data_size}
use webos_bridge_64to.Wl.Channel.{wl_data_alloc}

-- From a multiple of 4 inside the segment, `wl_data_alloc` of at most 2 ^ 31 bytes either aborts, since the
-- rounded request does not fit, or gives the bytes from the old position on, which end inside the segment and at
-- or before the new position, again a multiple of 4: the writes of one request have no byte in common.
wl_alloc_stays_inside :
    (size pos : ℕ)
    → size ≤ 2 ^ 31
    → pos % 4 ≡ 0
    → pos ≤ data_size
    → ((wl_data_alloc size pos ≡ none) × (data_size < pos + size))
      ⊎ ((off : ℕ) × (next : ℕ) × (wl_data_alloc size pos ≡ some (off, next))
          × (off ≡ pos)
          × (off + size ≤ next)
          × (next ≤ data_size)
          × (next % 4 ≡ 0))
unfolding wl_data_alloc
wl_alloc_stays_inside size pos small aligned inside =
    let next = (pos + size % 2 ^ 32 + 3) % 2 ^ 32 / 4 * 4 in
    elim (dec_lt data_size next) [
      | yes over ↦ inl (ground (arith, over), omega (arith, over))
      | no fits ↦ inr (
        pos,
        next,
        ground (arith, fits),
        refl,
        omega (arith, fits),
        omega (arith, fits),
        omega arith,
      )
    ]
