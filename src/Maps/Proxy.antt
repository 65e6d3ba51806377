-- ===== src/Maps/Proxy.antt =====
-- proxy/protocol/gles3_2.c and gles2.c: the handlers of the calls that map buffers, and their table `maps`.
-- The process has 32 bits: `GLintptr` and `GLsizeiptr` are patterns of 32 bits here, in two's complement, and a
-- value that arrives with 64 bits loses its upper half.
use webos_bridge_64to.Common.{
  ℕ, ◌+◌, ◌%◌, ◌^◌, Bool, true, false, not, ◌&&◌, ◌||◌, List, [], ◌∷◌, Option, none, some, leb, ltb,
  ◌==◌, if◌then◌else◌, update,
}
use webos_bridge_64to.Maps.State.{first_from, max_maps}

-- `real` stands for a pointer that is not NULL.
pub record MapEntry : Type 0 where
  pub real : Bool
  pub shm_offset : ℕ
  pub length : ℕ
  pub target : ℕ
  pub offset : ℕ
  pub buffer : ℕ
  pub access : ℕ

abbrev pub closed : MapEntry → MapEntry
closed m = record m { real = false; length = 0; offset = 0; buffer = 0; target = 0; access = 0 }

abbrev pub is_free : MapEntry → Bool
is_free m = not m.real

abbrev pub is_stale : ℕ → ℕ → MapEntry → Bool
is_stale buffer target m = m.real && m.buffer == buffer && m.target == target

unfoldable pub alloc_map : ℕ → ℕ → ℕ → ℕ → (ℕ → MapEntry) → ℕ × (ℕ → MapEntry)
alloc_map length target buffer access maps = elim (first_from is_free 63 1 maps) [
  | none ↦ (0, maps)
  | some i ↦ (
    i,
    update maps i (record (maps i) {
      real = true;
      shm_offset = 0;
      length = length;
      target = target;
      buffer = buffer;
      access = access;
    }),
  )
]

-- The loop that drops the map of a buffer that is mapped again.
unfoldable pub drop_stale : ℕ → ℕ → (ℕ → MapEntry) → ℕ → MapEntry
drop_stale buffer target maps = elim (first_from (is_stale buffer target) 63 1 maps) [
  | none ↦ maps
  | some i ↦ update maps i (closed (maps i))
]

-- `if (idx && idx < MAX_MAPS) maps[idx].offset = offset`
unfoldable pub set_offset : ℕ → ℕ → (ℕ → MapEntry) → ℕ → MapEntry
set_offset idx offset maps =
    if not (idx == 0) && ltb idx max_maps
    then update maps idx (record (maps idx) { offset = offset })
    else maps

-- `(GLintptr)ar_i64(&r)`, `(GLsizeiptr)ar_i64(&r)`
abbrev pub narrow : ℕ → ℕ
narrow n = n % 2 ^ 32

-- The order of the signed values, on patterns.
abbrev pub by_sign : ℕ → ℕ
by_sign n = (n + 2 ^ 31) % 2 ^ 32

-- The answer, and the table. `mapped` says whether the driver's glMapBufferRange returned memory.
unfoldable pub h_gl_map_buffer_range :
    Bool → ℕ → ℕ → ℕ → ℕ → ℕ → (ℕ → MapEntry) → ℕ × (ℕ → MapEntry)
h_gl_map_buffer_range mapped target offset length access buffer maps =
    let dropped = drop_stale buffer target maps in
    let r = alloc_map (narrow length) target buffer access dropped in
    if mapped then (r.0, set_offset r.0 (narrow offset) r.1) else (0, dropped)

unfoldable pub h_gl_unmap_buffer : ℕ → (ℕ → MapEntry) → ℕ → MapEntry
h_gl_unmap_buffer id maps =
    if not (id == 0) && ltb id max_maps then update maps id (closed (maps id)) else maps

-- The offset and the length that the driver is told to flush, none where the handler returns before.
unfoldable pub h_gl_flush_mapped_buffer_range : ℕ → ℕ → ℕ → ℕ → (ℕ → MapEntry) → Option (ℕ × ℕ)
h_gl_flush_mapped_buffer_range target offset length id maps =
    if id == 0
      || leb max_maps id
      || not (maps id).real
      || not ((maps id).target == target)
      || leb (2 ^ 31) offset
      || ltb (by_sign (maps id).length) (by_sign (offset + length))
    then none
    else some (narrow ((maps id).offset + offset), length)

-- The loop of `h_glDeleteBuffers` for one name. The slots do not overlap.
unfoldable pub drop_buffer : ℕ → (ℕ → MapEntry) → ℕ → MapEntry
drop_buffer b maps i =
    if leb 1 i && ltb i max_maps && (maps i).real && (maps i).buffer == b
    then closed (maps i)
    else maps i

unfoldable pub h_gl_delete_buffers : List ℕ → (ℕ → MapEntry) → ℕ → MapEntry
h_gl_delete_buffers [] maps = maps
h_gl_delete_buffers (b ∷ more) maps = h_gl_delete_buffers more (drop_buffer b maps)
