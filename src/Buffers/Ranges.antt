-- ===== src/Buffers/Ranges.antt =====
-- include/gles_util_stub.h and stub/gles3_2_stub.c: the cache of `glBindBufferRange` for uniforms. Offsets
-- and sizes are not negative.
use webos_bridge_64to.Common.{
  ℕ, ◌+◌, ◌-◌, ◌*◌, ◌%◌, ◌^◌, bit_xor, Bool, true, false, not, ◌&&◌, Option, none, some, ltb, leb,
  ◌==◌, if◌then◌else◌, update, zero, suc,
}

pub record BufferRangeCacheEntry : Type 0 where
  pub buffer : ℕ
  pub offset : ℕ
  pub size : ℕ
  pub content_hash : ℕ
  pub hash_valid : Bool

-- The slots of one context.
abbrev pub RangeCache : Type 0
RangeCache = ℕ → BufferRangeCacheEntry

-- A buffer that is mapped: `StubMapEntry`, with the two bits of its access and the bytes at its pointer.
pub record MapEntry : Type 0 where
  pub offset : ℕ
  pub length : ℕ
  pub writes : Bool
  pub flushes_itself : Bool
  pub bytes : ℕ → ℕ

abbrev pub bufrange_cache_slots : ℕ
bufrange_cache_slots = 64

abbrev pub gl_uniform_buffer : ℕ
gl_uniform_buffer = 35345

-- The loop of `fnv1a_hash`, from the byte at `i` on.
unfoldable pub hash_from : ℕ → ℕ → (ℕ → ℕ) → ℕ → ℕ
hash_from zero h bytes i = h
hash_from (suc n) h bytes i = hash_from n (bit_xor h (bytes i) * 16777619 % 2 ^ 32) bytes (i + 1)

unfoldable pub fnv1a_hash : (ℕ → ℕ) → ℕ → ℕ → ℕ
fnv1a_hash bytes from len = hash_from len 2166136261 bytes from

unfoldable pub bufrange_cache_invalidate_buffer : ℕ → RangeCache → RangeCache
bufrange_cache_invalidate_buffer buffer cache i =
    let e = cache i in
    if ltb i bufrange_cache_slots && e.buffer == buffer then record e { buffer = 0 } else e

-- `local_off >= 0 && local_off + size <= m->length`
unfoldable pub fits_map : ℕ → ℕ → MapEntry → Bool
fits_map offset size m = leb m.offset offset && leb (offset - m.offset + size) m.length

-- The map whose writes the stub does not see: `unsynchronized_mapped`.
unfoldable pub unsynchronized : Option MapEntry → Option MapEntry
unsynchronized none = none
unsynchronized (some m) = if m.writes && not m.flushes_itself then some m else none

abbrev pub hash_of_range : ℕ → ℕ → MapEntry → ℕ
hash_of_range offset size m = fnv1a_hash m.bytes (offset - m.offset) size

abbrev pub same_range : BufferRangeCacheEntry → ℕ → ℕ → ℕ → Bool
same_range e buffer offset size = e.buffer == buffer && e.offset == offset && e.size == size

-- The entry holds the range already.
unfoldable pub bind_again :
    ℕ → ℕ → Option MapEntry → BufferRangeCacheEntry → Bool × BufferRangeCacheEntry
bind_again offset size none e = (false, e)
bind_again offset size (some m) e =
    let h = hash_of_range offset size m in
    if fits_map offset size m
    then (if e.hash_valid && h == e.content_hash
        then (false, e)
        else (true, record e { content_hash = h; hash_valid = true }))
    else (true, e)

-- The entry takes the range.
unfoldable pub bind_new :
    ℕ → ℕ → ℕ → Option MapEntry → BufferRangeCacheEntry → BufferRangeCacheEntry
bind_new buffer offset size none e = record e {
  buffer = buffer;
  offset = offset;
  size = size;
  hash_valid = false;
}
bind_new buffer offset size (some m) e =
    let taken = record e { buffer = buffer; offset = offset; size = size; hash_valid = false } in
    if fits_map offset size m
    then record taken { content_hash = hash_of_range offset size m; hash_valid = true }
    else taken

-- `glBindBufferRange`, with the map that `find_stub_map` finds: whether it is sent, and the cache.
unfoldable pub gl_bind_buffer_range :
    ℕ → ℕ → ℕ → ℕ → ℕ → Option MapEntry → RangeCache → Bool × RangeCache
gl_bind_buffer_range target index buffer offset size map cache =
    let e = cache index in
    let m = unsynchronized map in
    let again = bind_again offset size m e in
    if target == gl_uniform_buffer && ltb index bufrange_cache_slots
    then (if same_range e buffer offset size
        then (again.0, update cache index again.1)
        else (true, update cache index (bind_new buffer offset size m e)))
    else (true, cache)
