-- ===== src/Maps/Examples.antt =====
-- Tests of the maps of buffers, and the theorems at concrete inputs.
use webos_bridge_64to.Common.{◌≡◌, refl, false, List, [], ◌∷◌, none, some, arith, ℕ_discrete}
use webos_bridge_64to.Maps.State.{
  StubMaps, clear_from, clear_slot, delete_buffer_maps, delete_maps, first_from,
  gl_flush_mapped_buffer_range, gl_map_buffer_range, gl_unmap_buffer, is_same_map, no_map,
  stub_unpack_piggyback, take_slot,
}
use webos_bridge_64to.Maps.Unique.{
  answers_inside, IsTracked, MapOp, delete, map_range, map_run, map_step, one_map_per_buffer,
}
use webos_bridge_64to.Maps.Found.{map_then_upload, unmap_forgets}
use webos_bridge_64to.Maps.Flushed.{flush_from_start_is_left_out}

code : Unit {0}
unfolding ℕ_discrete clear_from clear_slot delete_buffer_maps delete_maps first_from
    gl_flush_mapped_buffer_range gl_map_buffer_range gl_unmap_buffer is_same_map
    stub_unpack_piggyback take_slot map_run map_step answers_inside
code = tt

abbrev no_maps : StubMaps
no_maps = record { maps = λ i. no_map; active_count = 0; overrun = false }

no_maps-IsTracked : IsTracked no_maps
no_maps-IsTracked = record {
  named = λ i below live. absurd (ground arith);
  alone = λ i j i1 i2 j1 j2 live_i live_j e. absurd (ground arith);
}

-- Buffer 7 is mapped in slot 3, then again in slot 5, and buffer 8 in slot 3.
abbrev ops : List MapOp
ops =
    map_range 3 7 34962 16 64 2
    ∷ map_range 5 7 34962 0 128 2
    ∷ map_range 3 8 34962 0 32 18
    ∷ delete (8 ∷ [])
    ∷ []

abbrev mapped : StubMaps
mapped = map_run ops no_maps

ops_clear : (mapped.maps 3).live ≡ false
unfolding code
ops_clear = refl

ops_keep : (mapped.maps 5).buffer ≡ 7
unfolding code
ops_keep = refl

-- Two maps are left of the count, one of them live.
ops_count : mapped.active_count ≡ 2
unfolding code
ops_count = refl

mapped-IsTracked : IsTracked mapped
unfolding code
mapped-IsTracked = (one_map_per_buffer ops no_maps refl no_maps-IsTracked).0

one_map_per_buffer_example :
    IsTracked (map_run ops no_maps) × ((map_run ops no_maps).overrun ≡ false)
unfolding code
one_map_per_buffer_example = one_map_per_buffer ops no_maps refl no_maps-IsTracked

flush_from_start_is_left_out_example :
    gl_flush_mapped_buffer_range 7 0 8 (gl_map_buffer_range 3 7 34962 16 64 18 mapped).1 ≡ none
unfolding code
flush_from_start_is_left_out_example =
    flush_from_start_is_left_out 3 7 34962 16 64 18 mapped 3 0 8 mapped-IsTracked (omega arith) refl
      (omega arith)

map_then_upload_example :
    stub_unpack_piggyback 7 40 100 (gl_map_buffer_range 3 7 34962 16 64 2 mapped).1
    ≡ some (3, 24, 40)
unfolding code
map_then_upload_example =
    map_then_upload 3 7 34962 16 64 2 mapped 3 40 100 mapped-IsTracked (omega arith) refl
      (omega arith) (omega arith) refl refl (omega arith) (omega arith)

unmap_forgets_example :
    (gl_flush_mapped_buffer_range 7 0 8 (gl_unmap_buffer 7 mapped) ≡ none)
    × (stub_unpack_piggyback 7 0 8 (gl_unmap_buffer 7 mapped) ≡ none)
unmap_forgets_example = unmap_forgets 7 mapped 0 8 mapped-IsTracked
