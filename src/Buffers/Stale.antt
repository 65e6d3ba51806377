-- ===== src/Buffers/Stale.antt =====
-- Where the stub takes a buffer for bound that is not: after an indexed binding, and after the vertex
-- array that is bound is deleted.
use webos_bridge_64to.Common.{ℕ, ◌≡◌, ◌≢◌, [], ◌∷◌, arith, ℕ_discrete}
use webos_bridge_64to.Buffers.State.{
  Bindings, bind_slot, bind_vertex_array, buffer_slot, cleared, gl_bind_buffer, gl_bind_buffer_base,
  gl_delete_vertex_arrays, gl_element_array_buffer,
}
use webos_bridge_64to.Buffers.Spec.{
  GlBuffers, bind_array, bind_base, bind_buffer, delete_arrays, documented, run, stub_op,
}

-- A program that binds the buffer b to the target of uniforms, binds another buffer to an index of that
-- target, and binds b to the target again, ends with b bound to it in a driver that is sent every
-- call, and with the other buffer in the driver behind the stub, whatever was bound before.
pub base_leaves_binding :
    (b b' index : ℕ) (c : Bindings) (g : GlBuffers)
    → b ≢ b'
    → let w =
        run
          (bind_buffer 35345 b ∷ bind_base 35345 index b' ∷ bind_buffer 35345 b ∷ [])
          (record { stub = c; through = g; full = g }) in
      (w.full.binding 35345 ≡ b) × (w.through.binding 35345 ≡ b')
unfolding run stub_op documented gl_bind_buffer bind_slot buffer_slot gl_bind_buffer_base ℕ_discrete
base_leaves_binding b b' index c g other = ground arith

-- Where the stub records another vertex array than v as bound, and another buffer than b for the elements of v: a
-- program that binds the vertex array v other than 0, binds the buffer b to its elements, deletes v, which
-- binds the vertex array 0, and binds b to the elements again, ends with b bound to the elements of the
-- vertex array 0 in a driver that is sent every call, while the driver behind the stub still has there
-- what it had.
pub deleted_array_keeps_elements :
    (v b : ℕ) (c : Bindings) (g : GlBuffers)
    → v ≢ 0
    → c.vao ≢ v
    → c.ebo v ≢ b
    → let w =
        run
          (bind_array v
            ∷ bind_buffer gl_element_array_buffer b
            ∷ delete_arrays (v ∷ [])
            ∷ bind_buffer gl_element_array_buffer b
            ∷ [])
          (record { stub = c; through = g; full = g }) in
      (w.full.vao ≡ 0) × ((w.full.ebo 0 ≡ b) × ((w.through.vao ≡ 0) × (w.through.ebo 0 ≡ g.ebo 0)))
unfolding run stub_op documented gl_bind_buffer bind_vertex_array gl_delete_vertex_arrays cleared
    ℕ_discrete
deleted_array_keeps_elements v b c g real other fresh = ground arith
