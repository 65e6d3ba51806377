-- ===== src/Maps/Found.antt =====
-- That the map of a buffer is the one that its flushes and uploads find.
use webos_bridge_64to.Common.{
  min, ℕ, ◌+◌, ◌-◌, ◌≤◌, ◌<◌, ◌≡◌, refl, ◌∙◌, inl, inr, Bool, true, false, none, some, arith,
  ℕ_discrete, Option-cases, Bool-cases,
}
use webos_bridge_64to.Maps.State.{
  StubMapEntry, StubMaps, clear_from, first_map, gl_flush_mapped_buffer_range, gl_map_buffer_range,
  gl_unmap_buffer, holds_range, is_of, is_same_map, is_silent, gl_map_flush_explicit_bit,
  gl_map_write_bit, has_bit, max_maps, stub_unpack_piggyback, take_slot,
}
use webos_bridge_64to.Maps.Cleared.{first_from-here, first_from-none, first_from-some}
use webos_bridge_64to.Maps.Unique.{IsTracked, map-IsTracked}

-- A search for maps of a buffer finds the live map of the buffer that passes.
pub finds_own :
    (test : StubMapEntry → Bool) (buf : ℕ) (s : StubMaps) (i : ℕ)
    → IsTracked s
    → ((m : StubMapEntry) → test m ≡ true → is_of buf m ≡ true)
    → 1 ≤ i
    → i < max_maps
    → test (s.maps i) ≡ true
    → first_map test s ≡ some i
finds_own test buf s i h narrow i1 i2 here =
    first_from-here test 63 1 s.maps i i1 (omega arith) here (λ k k1 before.
      elim (Bool-cases (test (s.maps k))) [
        | inr passes_not ↦ passes_not
        | inl passes ↦
            let at_k : is_of buf (s.maps k) ≡ true = narrow (s.maps k) passes in
            let at_i : is_of buf (s.maps i) ≡ true = narrow (s.maps i) here in
            let e : k ≡ i = ground (arith, h.alone k i k1 (omega arith) i1 i2) in
            absurd (omega arith)
      ])

take-passes :
    (map_id buf target offset length access : ℕ) (c : StubMaps)
    → is_same_map buf target offset length access
        ((take_slot map_id buf target offset length access c).maps map_id)
      ≡ true
unfolding take_slot is_same_map
take-passes map_id buf target offset length access c = ground arith

-- The slot whose memory `glMapBufferRange` returns holds the map that was asked for.
pub map-slot :
    (map_id buf target offset length access : ℕ) (s : StubMaps) (i : ℕ)
    → map_id < max_maps
    → (gl_map_buffer_range map_id buf target offset length access s).0 ≡ some i
    → (1 ≤ i)
      × ((i < max_maps)
          × (is_same_map buf target offset length access
                ((gl_map_buffer_range map_id buf target offset length access s).1.maps i)
              ≡ true))
unfolding gl_map_buffer_range is_same_map
map-slot map_id buf target offset length access s i below =
    let c : StubMaps = clear_from 63 1 buf map_id s in
    let passes = take-passes map_id buf target offset length access c in
    elim (Option-cases (first_map (is_same_map buf target offset length access) s)) [
      | inl fresh ↦ elim (ℕ_discrete map_id 0) [
        | yes zero_id ↦ rw (fresh, gl_map_buffer_range) (ground arith)
        | no ne ↦ rw (fresh, gl_map_buffer_range) (ground (arith, passes))
      ]
      | inr (j, found) ↦
          let at_j =
            first_from-some (is_same_map buf target offset length access) 63 1 s.maps j found in
          rw (found, gl_map_buffer_range) (ground (arith, at_j))
    ]

-- The slot that a search for the buffer finds.
pub narrow_holds :
    (buf offset length : ℕ) (m : StubMapEntry)
    → holds_range buf offset length m ≡ true
    → is_of buf m ≡ true
narrow_holds buf offset length m h = ground arith

pub flush-found :
    (buf offset length : ℕ) (s : StubMaps) (i : ℕ)
    → first_map (holds_range buf offset length) s ≡ some i
    → gl_flush_mapped_buffer_range buf offset length s
      ≡ some ((s.maps i).id, offset - (s.maps i).offset)
unfolding gl_flush_mapped_buffer_range
flush-found buf offset length s i found = rw (found, gl_flush_mapped_buffer_range) refl

upload-found :
    (buf offset bytes : ℕ) (s : StubMaps) (i : ℕ)
    → first_map (is_of buf) s ≡ some i
    → 1 ≤ buf
    → 1 ≤ bytes
    → is_silent (s.maps i) ≡ true
    → (s.maps i).offset ≤ offset
    → offset < (s.maps i).offset + (s.maps i).length
    → stub_unpack_piggyback buf offset bytes s
      ≡ some (
        i,
        offset - (s.maps i).offset,
        min bytes ((s.maps i).offset + (s.maps i).length - offset),
      )
unfolding stub_unpack_piggyback
upload-found buf offset bytes s i found named some_bytes silent low high =
    rw (found, stub_unpack_piggyback) (ground arith)

-- Where every live map of the stub knows its slot and is the only one of its buffer, the proxy answers a number
-- below 64, and `glMapBufferRange` returns the memory of slot i for a map of a buffer other than 0 that is for
-- writing and not flushed explicitly: an upload of at least one byte from a place inside the map takes along the
-- memory of slot i at that place, as many bytes as it reads or, if they are fewer, those up to the end of the map.
pub map_then_upload :
    (map_id buf target offset length access : ℕ) (s : StubMaps) (i from bytes : ℕ)
    → IsTracked s
    → map_id < max_maps
    → (gl_map_buffer_range map_id buf target offset length access s).0 ≡ some i
    → 1 ≤ buf
    → 1 ≤ bytes
    → has_bit access gl_map_write_bit ≡ true
    → has_bit access gl_map_flush_explicit_bit ≡ false
    → offset ≤ from
    → from < offset + length
    → stub_unpack_piggyback buf from bytes
        (gl_map_buffer_range map_id buf target offset length access s).1
      ≡ some (i, from - offset, min bytes (offset + length - from))
unfolding is_same_map
map_then_upload map_id buf target offset length access s i from bytes h below e named some_bytes
      writes silent low high =
    let s' : StubMaps = (gl_map_buffer_range map_id buf target offset length access s).1 in
    let kept : IsTracked s' = map-IsTracked map_id buf target offset length access s below h in
    let (i1, at_i) = map-slot map_id buf target offset length access s i below e in
    let (i2, same) = at_i in
    let here : is_of buf (s'.maps i) ≡ true = ground arith in
    let start : (s'.maps i).offset ≡ offset = ground arith in
    let size : (s'.maps i).length ≡ length = ground arith in
    let same_access : (s'.maps i).access ≡ access = ground arith in
    let found : first_map (is_of buf) s' ≡ some i =
      finds_own (is_of buf) buf s' i kept (λ m e'. e') i1 i2 here in
    let no_flush : is_silent (s'.maps i) ≡ true = rw (same_access, writes, silent) refl in
    upload-found buf from bytes s' i found named some_bytes no_flush (rw start low)
      (rw (start, size) high)
    ∙ (λ k. some (i, from - start k, min bytes (start k + size k - from)))

-- `glUnmapBuffer` frees the only slot of the buffer.
unmap-slots :
    (buf : ℕ) (s : StubMaps) (k : ℕ)
    → IsTracked s
    → 1 ≤ k
    → k < max_maps
    → is_of buf ((gl_unmap_buffer buf s).maps k) ≡ false
unfolding gl_unmap_buffer
unmap-slots buf s k h k1 k2 = elim (Option-cases (first_map (is_of buf) s)) [
  | inl nothing ↦
      let passes_not = first_from-none (is_of buf) 63 1 s.maps nothing k k1 (omega arith) in
      rw (nothing, gl_unmap_buffer) passes_not
  | inr (i, found) ↦
      let at_i = first_from-some (is_of buf) 63 1 s.maps i found in
      elim (ℕ_discrete i k) [
        | yes here ↦ rw (found, gl_unmap_buffer) (ground arith)
        | no there ↦
            let other : is_of buf (s.maps k) ≡ false = ground (arith, h.alone i k) in
            rw (found, gl_unmap_buffer) (ground arith)
      ]
]

-- Where every live map of the stub knows its slot and is the only one of its buffer: after `glUnmapBuffer` of a
-- buffer a flush of it finds no map, and an upload from it takes no memory along.
pub unmap_forgets :
    (buf : ℕ) (s : StubMaps) (from size : ℕ)
    → IsTracked s
    → (gl_flush_mapped_buffer_range buf from size (gl_unmap_buffer buf s) ≡ none)
      × (stub_unpack_piggyback buf from size (gl_unmap_buffer buf s) ≡ none)
unfolding gl_flush_mapped_buffer_range stub_unpack_piggyback
unmap_forgets buf s from size h =
    let s' : StubMaps = gl_unmap_buffer buf s in
    let gone : (test : StubMapEntry → Bool)
        → ((m : StubMapEntry) → test m ≡ true → is_of buf m ≡ true)
        → first_map test s' ≡ none =
      λ test narrow. elim (Option-cases (first_map test s')) [
        | inl nothing ↦ nothing
        | inr (k, found) ↦
            let at_k = first_from-some test 63 1 s'.maps k found in
            let of_buf : is_of buf (s'.maps k) ≡ true = narrow (s'.maps k) at_k.1.1 in
            let not_of : is_of buf (s'.maps k) ≡ false =
              unmap-slots buf s k h at_k.0 (omega arith) in
            ground arith
      ] in
    (
      rw
          (
            gone (holds_range buf from size) (narrow_holds buf from size),
            gl_flush_mapped_buffer_range,
          )
          refl,
      rw (gone (is_of buf) (λ m e. e), stub_unpack_piggyback) refl,
    )
