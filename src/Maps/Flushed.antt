-- ===== src/Maps/Flushed.antt =====
-- Which flushes of a map the stub sends.
use webos_bridge_64to.Common.{
  sym, ℕ, ◌+◌, ◌-◌, ◌≤◌, ◌<◌, ◌≡◌, refl, ◌∙◌, inl, inr, true, none, some, arith, Option-cases,
}
use webos_bridge_64to.Maps.State.{
  StubMaps, first_map, gl_flush_mapped_buffer_range, gl_map_buffer_range, holds_range, is_same_map,
  max_maps,
}
use webos_bridge_64to.Maps.Cleared.{first_from-some}
use webos_bridge_64to.Maps.Unique.{IsTracked, map-IsTracked}
use webos_bridge_64to.Maps.Found.{finds_own, flush-found, map-slot, narrow_holds}

-- Where the memory that `glMapBufferRange` returned is that of slot i, a flush of a part of the mapped range
-- sends the name of that slot, and the part's place in its memory.
map_then_flush :
    (map_id buf target offset length access : ℕ) (s : StubMaps) (i from size : ℕ)
    → IsTracked s
    → map_id < max_maps
    → (gl_map_buffer_range map_id buf target offset length access s).0 ≡ some i
    → offset ≤ from
    → from + size ≤ offset + length
    → gl_flush_mapped_buffer_range buf from size
        (gl_map_buffer_range map_id buf target offset length access s).1
      ≡ some (i, from - offset)
unfolding is_same_map
map_then_flush map_id buf target offset length access s i from size h below e low high =
    let s' : StubMaps = (gl_map_buffer_range map_id buf target offset length access s).1 in
    let kept : IsTracked s' = map-IsTracked map_id buf target offset length access s below h in
    let (i1, at_i) = map-slot map_id buf target offset length access s i below e in
    let (i2, same) = at_i in
    let live : (s'.maps i).live ≡ true = ground arith in
    let start : (s'.maps i).offset ≡ offset = ground arith in
    let here : holds_range buf from size (s'.maps i) ≡ true = ground arith in
    let found : first_map (holds_range buf from size) s' ≡ some i =
      finds_own (holds_range buf from size) buf s' i kept (narrow_holds buf from size) i1 i2 here in
    flush-found buf from size s' i found ∙ (λ k. some (kept.named i i2 live k, from - start k))

-- OpenGL ES counts the offset of `glFlushMappedBufferRange` from the start of the map, but the stub from the start of
-- the buffer. Where every live map of the stub knows its slot and is the only one of its buffer, the proxy answers a
-- number below 64 and the program has mapped a range: a flush whose offset is less than that of the range, as it is
-- for the first bytes of a range that starts behind them, is left out.
pub flush_from_start_is_left_out :
    (map_id buf target offset length access : ℕ) (s : StubMaps) (i from size : ℕ)
    → IsTracked s
    → map_id < max_maps
    → (gl_map_buffer_range map_id buf target offset length access s).0 ≡ some i
    → from < offset
    → gl_flush_mapped_buffer_range buf from size
        (gl_map_buffer_range map_id buf target offset length access s).1
      ≡ none
unfolding gl_flush_mapped_buffer_range is_same_map
flush_from_start_is_left_out map_id buf target offset length access s i from size h below e low =
    let s' : StubMaps = (gl_map_buffer_range map_id buf target offset length access s).1 in
    let kept : IsTracked s' = map-IsTracked map_id buf target offset length access s below h in
    let (i1, at_i) = map-slot map_id buf target offset length access s i below e in
    let (i2, same) = at_i in
    let live : (s'.maps i).live ≡ true = ground arith in
    let of_buf : (s'.maps i).buffer ≡ buf = ground arith in
    let start : (s'.maps i).offset ≡ offset = ground arith in
    elim (Option-cases (first_map (holds_range buf from size) s')) [
      | inl nothing ↦ rw (nothing, gl_flush_mapped_buffer_range) refl
      | inr (k, found) ↦
          let at_k = first_from-some (holds_range buf from size) 63 1 s'.maps k found in
          let live_k : (s'.maps k).live ≡ true = ground (arith, at_k.1.1) in
          let of_buf_k : (s'.maps k).buffer ≡ buf = ground (arith, at_k.1.1) in
          let starts : (s'.maps k).offset ≤ from = ground (arith, at_k.1.1) in
          let here : k ≡ i =
            kept.alone k i at_k.0 (omega arith) i1 i2 live_k live (of_buf_k ∙ sym of_buf) in
          let late : offset ≤ from = rw (sym start, sym here) starts in absurd (omega arith)
    ]
