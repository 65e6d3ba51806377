-- ===== src/Sync/Handles.antt =====
-- stub/bridge_core.c: `bridge_sync_alloc`, `bridge_sync_free` and `bridge_sync_done`. `g_sync_lock` makes
-- each of the first two one step. A handle is 24 bits of a generation over 8 bits of an id.
use webos_bridge_64to.Common.{
  ℕ, zero, suc, ◌+◌, ◌-◌, ◌*◌, ◌/◌, ◌%◌, ◌^◌, Bool, false, not, ◌||◌, bit_and, bit_or, ◌==◌,
  if◌then◌else◌, update,
}

abbrev pub max_syncs : ℕ
max_syncs = 256

abbrev pub sync_id_bits : ℕ
sync_id_bits = 8

abbrev pub sync_id_mask : ℕ
sync_id_mask = 255

-- `g_sync_used`, `g_sync_gen` and `g_sync_next`; `sync_done_gen` is in the ring.
pub record Syncs : Type 0 where
  pub used : ℕ → ℕ
  pub gen : ℕ
  pub next : ℕ

abbrev pub no_syncs : Syncs
no_syncs = record { used = λ i. 0; gen = 0; next = 1 }

-- The id of the round `n` of the loop, in `uint32_t`.
unfoldable pub candidate : ℕ → ℕ → ℕ
candidate next n = 1 + (next + 2 ^ 32 - 1 + n - 1) % 2 ^ 32 % (max_syncs - 1)

unfoldable pub next_gen : ℕ → ℕ
next_gen gen = let g = bit_and (gen + 1) 0xffffff in if g == 0 then 1 else g

unfoldable pub handle_of : ℕ → ℕ → ℕ
handle_of gen id = bit_or (gen * 2 ^ sync_id_bits % 2 ^ 32) id

-- The body of the loop for an id that is not used.
unfoldable pub take_id : ℕ → Syncs → ℕ × Syncs
take_id id s =
    let gen = next_gen s.gen in
    (handle_of gen id, record { used = update s.used id 1; gen = gen; next = id + 1 })

-- The rounds from `n` on, `fuel` of them.
unfoldable pub alloc_from : ℕ → ℕ → Syncs → ℕ × Syncs
alloc_from zero n s = (0, s)
alloc_from (suc fuel) n s =
    let rest = alloc_from fuel (n + 1) s in
    let id = candidate s.next n in if s.used id == 0 then take_id id s else rest

-- The loop runs while `n < BRIDGE_MAX_SYNCS`, from 1 on.
unfoldable pub bridge_sync_alloc : Syncs → ℕ × Syncs
bridge_sync_alloc s = alloc_from (max_syncs - 1) 1 s

unfoldable pub bridge_sync_free : ℕ → Syncs → Syncs
bridge_sync_free handle s =
    let id = bit_and handle sync_id_mask in
    if id == 0 then s else record s { used = update s.used id 0 }

-- `connected` is `g_ring != NULL`.
unfoldable pub bridge_sync_done : ℕ → Bool → (ℕ → ℕ) → Bool
bridge_sync_done handle connected sync_done_gen =
    let id = bit_and handle sync_id_mask in
    let gen = handle / 2 ^ sync_id_bits in
    if id == 0 || (gen == 0 || not connected) then false else sync_done_gen id == gen
