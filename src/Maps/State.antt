-- ===== src/Maps/State.antt =====
-- `stub_maps` and the calls that change it. The buffer is the one that `get_bound_buffer` returns for the
-- target. Offsets and lengths are not negative.
use webos_bridge_64to.Common.{
  ℕ, zero, suc, ◌+◌, ◌-◌, ◌%◌, ◌^◌, Bool, true, false, not, ◌&&◌, ◌||◌, bit_and, List, [], ◌∷◌,
  Option, none, some, leb, ltb, ◌==◌, if◌then◌else◌, update,
}

-- `live` stands for a pointer that is not NULL.
pub record StubMapEntry : Type 0 where
  pub id : ℕ
  pub live : Bool
  pub length : ℕ
  pub target : ℕ
  pub offset : ℕ
  pub buffer : ℕ
  pub access : ℕ

-- `stub_maps` and `g_active_stub_map_count`. Past the end of the table, a store changes memory of which the model only
-- says, in `overrun`, that it was changed.
pub record StubMaps : Type 0 where
  pub maps : ℕ → StubMapEntry
  pub active_count : ℕ
  pub overrun : Bool

abbrev pub max_maps : ℕ
max_maps = 64

abbrev pub no_map : StubMapEntry
no_map = record { id = 0; live = false; length = 0; target = 0; offset = 0; buffer = 0; access = 0 }

-- `g_active_stub_map_count--`
abbrev pub one_less : ℕ → ℕ
one_less n = (n + (2 ^ 32 - 1)) % 2 ^ 32

-- The first of `n` slots from `i` on that passes the test of a loop.
unfoldable pub first_from {ℓ} : {A : Type ℓ} → (A → Bool) → ℕ → ℕ → (ℕ → A) → Option ℕ
first_from test zero i maps = none
first_from test (suc n) i maps =
    let rest = first_from test n (i + 1) maps in if test (maps i) then some i else rest

-- `for (i = 1; i < MAX_MAPS; i++)`
abbrev pub first_map : (StubMapEntry → Bool) → StubMaps → Option ℕ
first_map test s = first_from test 63 1 s.maps

abbrev pub is_of : ℕ → StubMapEntry → Bool
is_of buf m = m.live && m.buffer == buf

unfoldable pub is_same_map : ℕ → ℕ → ℕ → ℕ → ℕ → StubMapEntry → Bool
is_same_map buf target offset length access m =
    m.live
    && m.buffer == buf
    && m.target == target
    && m.offset == offset
    && m.length == length
    && m.access == access

-- One round of the loop that clears the other maps of a buffer.
unfoldable pub clear_slot : ℕ → ℕ → ℕ → StubMaps → StubMaps
clear_slot i buf map_id s =
    if is_of buf (s.maps i) && not (i == map_id)
    then (record s { maps = update s.maps i no_map; active_count = one_less s.active_count })
    else s

-- That loop in `n` slots from `i` on.
unfoldable pub clear_from : ℕ → ℕ → ℕ → ℕ → StubMaps → StubMaps
clear_from zero i buf map_id s = s
clear_from (suc n) i buf map_id s = clear_from n (i + 1) buf map_id (clear_slot i buf map_id s)

-- The slot that the proxy names takes the map.
unfoldable pub take_slot : ℕ → ℕ → ℕ → ℕ → ℕ → ℕ → StubMaps → StubMaps
take_slot map_id buf target offset length access s =
    let n = if (s.maps map_id).live then one_less s.active_count else s.active_count in
    record s {
      maps = update s.maps map_id (record {
        id = map_id;
        live = true;
        length = length;
        target = target;
        offset = offset;
        buffer = buf;
        access = access;
      });
      active_count = (n + 1) % 2 ^ 32;
    }

-- `glMapBufferRange`, where the proxy answers `map_id`: the slot whose memory is returned, none for NULL. A
-- `malloc` that fails ends the call as the answer 0 does.
unfoldable pub gl_map_buffer_range : ℕ → ℕ → ℕ → ℕ → ℕ → ℕ → StubMaps → Option ℕ × StubMaps
gl_map_buffer_range map_id buf target offset length access s =
    elim (first_map (is_same_map buf target offset length access) s) [
      | some i ↦ (some i, s)
      | none ↦
          let cleared = clear_from 63 1 buf map_id s in
          if map_id == 0
          then (none, s)
          else if leb max_maps map_id
          then (some map_id, record cleared { overrun = true })
          else (some map_id, take_slot map_id buf target offset length access cleared)
    ]

abbrev pub holds_range : ℕ → ℕ → ℕ → StubMapEntry → Bool
holds_range buf offset length m =
    is_of buf m && leb m.offset offset && leb (offset + length) (m.offset + m.length)

-- `glFlushMappedBufferRange`: the identifier of the map and the offset in it that are sent.
unfoldable pub gl_flush_mapped_buffer_range : ℕ → ℕ → ℕ → StubMaps → Option (ℕ × ℕ)
gl_flush_mapped_buffer_range buf offset length s =
    elim (first_map (holds_range buf offset length) s) [
      | none ↦ none
      | some i ↦ some ((s.maps i).id, offset - (s.maps i).offset)
    ]

unfoldable pub gl_unmap_buffer : ℕ → StubMaps → StubMaps
gl_unmap_buffer buf s = elim (first_map (is_of buf) s) [
  | none ↦ s
  | some i ↦ record s { maps = update s.maps i no_map; active_count = one_less s.active_count }
]

abbrev pub gl_map_write_bit : ℕ
gl_map_write_bit = 2

abbrev pub gl_map_flush_explicit_bit : ℕ
gl_map_flush_explicit_bit = 16

-- `access & bit` is not 0.
abbrev pub has_bit : ℕ → ℕ → Bool
has_bit access bit = not (bit_and access bit == 0)

-- A map whose writes no flush sends.
abbrev pub is_silent : StubMapEntry → Bool
is_silent m = not (has_bit m.access gl_map_flush_explicit_bit) && has_bit m.access gl_map_write_bit

-- `copy`
abbrev pub copy_size : ℕ → ℕ → ℕ → ℕ
copy_size offset bytes length = if ltb length (offset + bytes) then length - offset else bytes

-- `stub_unpack_piggyback` for the buffer of the pixel unpack target: the slot, the offset in its memory and
-- the length that are written to the data segment, none where nothing is.
unfoldable pub stub_unpack_piggyback : ℕ → ℕ → ℕ → StubMaps → Option (ℕ × ℕ × ℕ)
stub_unpack_piggyback pbo offset bytes s = elim (first_map (is_of pbo) s) [
  | none ↦ none
  | some i ↦
      let m = s.maps i in
      if pbo == 0
        || bytes == 0
        || not (is_silent m)
        || ltb offset m.offset
        || leb (m.offset + m.length) offset
      then none
      else some (i, offset - m.offset, copy_size (offset - m.offset) bytes m.length)
]

-- `glDeleteBuffers` leaves the access of an entry that it clears.
abbrev pub emptied : StubMapEntry → StubMapEntry
emptied m = record m { live = false; length = 0; offset = 0; buffer = 0; target = 0; id = 0 }

-- For one name, in the order of the slots, which do not overlap. The count stays.
unfoldable pub delete_maps : ℕ → StubMaps → StubMaps
delete_maps b s = record s {
  maps =
      λ i. if leb 1 i && ltb i max_maps && is_of b (s.maps i) then emptied (s.maps i) else s.maps i;
}

unfoldable pub delete_buffer_maps : List ℕ → StubMaps → StubMaps
delete_buffer_maps [] s = s
delete_buffer_maps (b ∷ more) s = delete_buffer_maps more (delete_maps b s)
