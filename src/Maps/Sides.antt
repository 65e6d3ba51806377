-- ===== src/Maps/Sides.antt =====
-- The calls that map buffers, through the stub and the handlers of the proxy.
use webos_bridge_64to.Common.{ℕ, ◌≤◌, ◌<◌, ◌≡◌, Bool, true, List, Option, none, some}
use webos_bridge_64to.Maps.State.{
  StubMapEntry, StubMaps, delete_buffer_maps, first_map, gl_flush_mapped_buffer_range,
  gl_map_buffer_range, gl_unmap_buffer, is_of, is_same_map, max_maps,
}
use webos_bridge_64to.Maps.Proxy.{
  MapEntry, h_gl_delete_buffers, h_gl_flush_mapped_buffer_range, h_gl_map_buffer_range,
  h_gl_unmap_buffer, narrow,
}
use webos_bridge_64to.Maps.Unique.{IsTracked}

pub record Sides : Type 0 where
  pub stub : StubMaps
  pub proxy : ℕ → MapEntry

-- The handler runs where the stub finds no map to return.
unfoldable pub map_sides : Bool → ℕ → ℕ → ℕ → ℕ → ℕ → Sides → Option ℕ × Sides
map_sides mapped buf target offset length access s =
    let answer = h_gl_map_buffer_range mapped target offset length access buf s.proxy in
    let r = gl_map_buffer_range answer.0 buf target offset length access s.stub in
    elim (first_map (is_same_map buf target offset length access) s.stub) [
      | some i ↦ (some i, s)
      | none ↦ (r.0, record { stub = r.1; proxy = answer.1 })
    ]

-- The identifier that `glUnmapBuffer` sends.
unfoldable pub unmap_id : ℕ → StubMaps → ℕ
unmap_id buf s = elim (first_map (is_of buf) s) [ none ↦ 0 | some i ↦ (s.maps i).id ]

unfoldable pub unmap_sides : ℕ → Sides → Sides
unmap_sides buf s = record {
  stub = gl_unmap_buffer buf s.stub;
  proxy = h_gl_unmap_buffer (unmap_id buf s.stub) s.proxy;
}

unfoldable pub delete_sides : List ℕ → Sides → Sides
delete_sides names s = record {
  stub = delete_buffer_maps names s.stub;
  proxy = h_gl_delete_buffers names s.proxy;
}

-- What the driver is told to flush. The stub casts the offset and the length to `int32_t`.
unfoldable pub flush_sides : ℕ → ℕ → ℕ → ℕ → Sides → Option (ℕ × ℕ)
flush_sides target buf offset length s =
    elim (gl_flush_mapped_buffer_range buf offset length s.stub) [
      | none ↦ none
      | some m ↦ h_gl_flush_mapped_buffer_range target (narrow m.1) (narrow length) m.0 s.proxy
    ]

-- The proxy's entry stands for the map of the stub's entry.
pub record IsImage (m : StubMapEntry) (e : MapEntry) : Type 0 where
  pub real : e.real ≡ true
  pub length : e.length ≡ m.length
  pub target : e.target ≡ m.target
  pub offset : e.offset ≡ m.offset
  pub buffer : e.buffer ≡ m.buffer
  pub access : e.access ≡ m.access

-- The stub tracks its maps, and the proxy has every one of them in the same slot.
pub record IsMirrored (s : Sides) : Type 0 where
  pub tracked : IsTracked s.stub
  pub image :
      (i : ℕ)
      → 1 ≤ i
      → i < max_maps
      → (s.stub.maps i).live ≡ true
      → IsImage (s.stub.maps i) (s.proxy i)
