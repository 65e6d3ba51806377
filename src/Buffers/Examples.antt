-- ===== src/Buffers/Examples.antt =====
-- Tests of the bindings of buffers, and the theorems at concrete inputs.
use webos_bridge_64to.Common.{◌≡◌, refl, true, false, [], ◌∷◌, none, some, List, arith, ℕ_discrete}
use webos_bridge_64to.Buffers.State.{
  Bindings, bind_slot, bind_vertex_array, buffer_slot, cleared, get_bound_buffer, gl_bind_buffer,
  gl_bind_buffer_base, gl_delete_buffers, gl_delete_vertex_arrays, gl_element_array_buffer,
  invalidate_buffer, read_slot,
}
use webos_bridge_64to.Buffers.Spec.{
  GlBuffers, Op, bind_array, bind_base, bind_buffer, delete_arrays, documented, run, stub_op,
}
use webos_bridge_64to.Buffers.Stale.{base_leaves_binding, deleted_array_keeps_elements}
use webos_bridge_64to.Buffers.Ranges.{
  MapEntry, bind_again, bind_new, bufrange_cache_invalidate_buffer, fits_map, fnv1a_hash,
  gl_bind_buffer_range, gl_uniform_buffer, hash_from, unsynchronized,
}
use webos_bridge_64to.Buffers.Cached
use webos_bridge_64to.Buffers.Cached.{
  RangeOp, bind_range, change_buffer, delete_buffer, no_ranges, range_after_base_is_left_out,
  range_run, range_step, spares_index, whole,
}

code : Unit {0}
unfolding ℕ_discrete bind_slot bind_vertex_array buffer_slot cleared get_bound_buffer gl_bind_buffer
    gl_bind_buffer_base gl_delete_buffers gl_delete_vertex_arrays invalidate_buffer read_slot
    documented run stub_op bind_again bind_new bufrange_cache_invalidate_buffer fits_map fnv1a_hash
    gl_bind_buffer_range hash_from unsynchronized range_run range_step spares_index
code = tt

abbrev unbound : Bindings
unbound = record { binding = λ i. 0; vao = 0; current_vao = 0; ebo = λ v. 0 }

abbrev none_bound : GlBuffers
none_bound = record { binding = λ t. 0; vao = 0; ebo = λ v. 0 }

abbrev ops : List Op
ops =
    bind_buffer 34962 7
    ∷ bind_array 3
    ∷ bind_buffer gl_element_array_buffer 8
    ∷ bind_buffer 34962 7
    ∷ bind_array 0
    ∷ []

-- A second binding of the same buffer is left out.
second_binding : (gl_bind_buffer 34962 7 (gl_bind_buffer 34962 7 unbound).1).0 ≡ false
unfolding code
second_binding = refl

elements_by_array :
    get_bound_buffer gl_element_array_buffer
      (run ops (record { stub = unbound; through = none_bound; full = none_bound })).stub
    ≡ 0
unfolding code
elements_by_array = refl

-- The standard value of the hash of the byte "a".
hash_of_a : fnv1a_hash (λ i. 97) 0 1 ≡ 3826002220
unfolding code
hash_of_a = refl

base_leaves_binding_example :
    let w =
      run
        (bind_buffer 35345 5 ∷ bind_base 35345 2 6 ∷ bind_buffer 35345 5 ∷ [])
        (record { stub = unbound; through = none_bound; full = none_bound }) in
    (w.full.binding 35345 ≡ 5) × (w.through.binding 35345 ≡ 6)
base_leaves_binding_example = base_leaves_binding 5 6 2 unbound none_bound (omega arith)

deleted_array_keeps_elements_example :
    let w =
      run
        (bind_array 3
          ∷ bind_buffer gl_element_array_buffer 7
          ∷ delete_arrays (3 ∷ [])
          ∷ bind_buffer gl_element_array_buffer 7
          ∷ [])
        (record { stub = unbound; through = none_bound; full = none_bound }) in
    (w.full.vao ≡ 0) × ((w.full.ebo 0 ≡ 7) × ((w.through.vao ≡ 0) × (w.through.ebo 0 ≡ 0)))
deleted_array_keeps_elements_example =
    deleted_array_keeps_elements 3 7 unbound none_bound (omega arith) (omega arith) (omega arith)

abbrev mapped : MapEntry
mapped = record { offset = 0; length = 4; writes = true; flushes_itself = false; bytes = λ i. 1 }

abbrev range_ops : List RangeOp
range_ops =
    bind_range gl_uniform_buffer 2 9 0 4 (some mapped)
    ∷ Cached.bind_base gl_uniform_buffer 3 9
    ∷ change_buffer 8
    ∷ delete_buffer 7
    ∷ []

-- A range is left out after its index was bound to a whole buffer.
base_then_range :
    let s =
      range_run
        (bind_range gl_uniform_buffer 2 9 0 4 none ∷ Cached.bind_base gl_uniform_buffer 2 5 ∷ [])
        no_ranges in
    ((gl_bind_buffer_range gl_uniform_buffer 2 9 0 4 none s.cache).0 ≡ false) × (s.last 2 ≡ whole 5)
base_then_range = range_after_base_is_left_out 2 9 5 0 4 (omega arith) (omega arith)
