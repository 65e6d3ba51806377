-- ===== src/Maps/SideExamples.antt =====
-- Tests of the maps of buffers on both sides, and the theorems at concrete inputs.
use webos_bridge_64to.Common.{◌≡◌, refl, true, false, List, [], ◌∷◌, none, some, arith, ℕ_discrete}
use webos_bridge_64to.Maps.State.{
  clear_from, clear_slot, delete_buffer_maps, delete_maps, first_from, gl_flush_mapped_buffer_range,
  gl_map_buffer_range, gl_unmap_buffer, is_same_map, no_map, take_slot,
}
use webos_bridge_64to.Maps.Proxy.{
  MapEntry, alloc_map, drop_buffer, drop_stale, h_gl_delete_buffers, h_gl_flush_mapped_buffer_range,
  h_gl_map_buffer_range, h_gl_unmap_buffer, set_offset,
}
use webos_bridge_64to.Maps.Sides.{
  IsMirrored, Sides, delete_sides, flush_sides, map_sides, unmap_id, unmap_sides,
}
use webos_bridge_64to.Maps.Agreement.{
  SidesOp, all_mapped, map_range, sides_agree, sides_run, sides_step, unmap,
}

code : Unit {0}
unfolding ℕ_discrete clear_from clear_slot delete_buffer_maps delete_maps first_from
    gl_flush_mapped_buffer_range gl_map_buffer_range gl_unmap_buffer is_same_map take_slot alloc_map
    drop_buffer drop_stale h_gl_delete_buffers h_gl_flush_mapped_buffer_range h_gl_map_buffer_range
    h_gl_unmap_buffer set_offset delete_sides flush_sides map_sides unmap_id unmap_sides all_mapped
    sides_run sides_step
code = tt

abbrev no_entry : MapEntry
no_entry = record {
  real = false;
  shm_offset = 0;
  length = 0;
  target = 0;
  offset = 0;
  buffer = 0;
  access = 0;
}

abbrev start : Sides
start = record {
  stub = record { maps = λ i. no_map; active_count = 0; overrun = false };
  proxy = λ i. no_entry;
}

start-IsMirrored : IsMirrored start
start-IsMirrored = record {
  tracked = record {
    named = λ i below live. absurd (ground arith);
    alone = λ i j i1 i2 j1 j2 live_i live_j e. absurd (ground arith);
  };
  image = λ i i1 i2 live. absurd (ground arith);
}

-- Buffer 7 is mapped in slot 1 and buffer 8 in slot 2. A second map of buffer 7 stays in slot 1, and buffer
-- 8 is unmapped.
abbrev ops : List SidesOp
ops =
    map_range true 7 34962 16 64 18
    ∷ map_range true 8 34962 0 32 2
    ∷ map_range true 7 34962 0 128 18
    ∷ unmap 8
    ∷ []

abbrev mapped : Sides
mapped = sides_run ops start

stub_slot : (mapped.stub.maps 1).length ≡ 128
unfolding code
stub_slot = refl

proxy_slot : (mapped.proxy 1).length ≡ 128
unfolding code
proxy_slot = refl

proxy_free : (mapped.proxy 2).real ≡ false
unfolding code
proxy_free = refl

sides_agree_example : IsMirrored (sides_run ops start)
unfolding code
sides_agree_example = sides_agree ops start refl start-IsMirrored

-- The driver refuses the second map: the stub still returns the memory of the first one, and no flush of it
-- reaches the driver.
abbrev refused : Sides
refused = (map_sides false 7 34962 0 256 18 mapped).1

refused_returns : (map_sides false 7 34962 0 128 18 refused).0 ≡ some 1
unfolding code
refused_returns = refl

refused_flush : flush_sides 34962 7 0 8 refused ≡ none
unfolding code
refused_flush = refl

-- A flush to another target of the buffer is left out.
other_target : flush_sides 35051 7 0 8 mapped ≡ none
unfolding code
other_target = refl
