-- ===== src/Buffers/Cached.antt =====
-- When `glBindBufferRange` is left out.
use webos_bridge_64to.Common.{
  ℕ, ◌<◌, ◌≡◌, ◌≢◌, not, Bool, true, false, ◌&&◌, List, [], ◌∷◌, Option, none, arith, ◌==◌,
  if◌then◌else◌, update,
}
use webos_bridge_64to.Buffers.Ranges.{
  MapEntry, RangeCache, bind_again, bind_new, bufrange_cache_invalidate_buffer,
  bufrange_cache_slots, gl_bind_buffer_range, gl_uniform_buffer, unsynchronized,
}

-- What the driver has bound to an index of the uniform target.
pub data Sent : Type 0 where
  nothing : Sent
  whole : (buffer : ℕ) → Sent
  part : (buffer offset size : ℕ) → Sent

abbrev is_whole_or_part_of : ℕ → Sent → Bool
is_whole_or_part_of b nothing = false
is_whole_or_part_of b (whole buffer) = buffer == b
is_whole_or_part_of b (part buffer offset size) = buffer == b

-- `glBindBufferRange`, `glBindBufferBase`, the calls that change the bytes of the bound buffer, and the deletion of
-- one buffer, in one context.
pub data RangeOp : Type 0 where
  bind_range : (target index buffer offset size : ℕ) → Option MapEntry → RangeOp
  bind_base : (target index buffer : ℕ) → RangeOp
  change_buffer : ℕ → RangeOp
  delete_buffer : ℕ → RangeOp

-- The cache, and what the driver has bound.
pub record Ranges : Type 0 where
  pub cache : RangeCache
  pub last : ℕ → Sent

-- `glBindBufferBase` leaves the cache.
unfoldable pub range_step : RangeOp → Ranges → Ranges
range_step (bind_range target index buffer offset size map) s =
    let o = gl_bind_buffer_range target index buffer offset size map s.cache in
    record {
      cache = o.1;
      last =
          if o.0 && target == gl_uniform_buffer
          then update s.last index (part buffer offset size)
          else s.last;
    }
range_step (bind_base target index buffer) s = record s {
  last = if target == gl_uniform_buffer then update s.last index (whole buffer) else s.last;
}
range_step (change_buffer b) s = record s { cache = bufrange_cache_invalidate_buffer b s.cache }
range_step (delete_buffer b) s = record {
  cache = bufrange_cache_invalidate_buffer b s.cache;
  last = λ i. if is_whole_or_part_of b (s.last i) then nothing else s.last i;
}

unfoldable pub range_run : List RangeOp → Ranges → Ranges
range_run [] s = s
range_run (op ∷ more) s = range_run more (range_step op s)

abbrev pub no_ranges : Ranges
no_ranges = record {
  cache = λ i. record { buffer = 0; offset = 0; size = 0; content_hash = 0; hash_valid = false };
  last = λ i. nothing;
}

-- No call binds a whole buffer to the index of the uniform target.
unfoldable pub spares_index : ℕ → List RangeOp → Bool
spares_index index [] = true
spares_index index (bind_base target i buffer ∷ more) =
    not (target == gl_uniform_buffer && i == index) && spares_index index more
spares_index index (_ ∷ more) = spares_index index more

-- An entry is empty, or holds the range that the driver has bound.
abbrev IsLast : ℕ → Ranges → Type 0
IsLast i s =
    (s.cache i).buffer ≢ 0 → s.last i ≡ part (s.cache i).buffer (s.cache i).offset (s.cache i).size

-- A program that binds a range of a buffer b other than 0, which is not mapped, to an index below 64 of the uniform
-- target, binds another buffer as a whole to that index, and binds the range again: the last call is left out, and the
-- driver has the other buffer bound to the index.
pub range_after_base_is_left_out :
    (index b b' offset size : ℕ)
    → index < bufrange_cache_slots
    → b ≢ 0
    → let s =
        range_run
          (bind_range gl_uniform_buffer index b offset size none
            ∷ bind_base gl_uniform_buffer index b'
            ∷ [])
          no_ranges in
      ((gl_bind_buffer_range gl_uniform_buffer index b offset size none s.cache).0 ≡ false)
      × (s.last index ≡ whole b')
unfolding range_run range_step gl_bind_buffer_range bind_again bind_new unsynchronized
range_after_base_is_left_out index b b' offset size small real = ground arith
