-- ===== src/Buffers/Spec.antt =====
-- The documented effect of the calls on the bindings of the driver, and programs on both.
use webos_bridge_64to.Common.{ℕ, Bool, true, List, [], ◌∷◌, ◌==◌, if◌then◌else◌, update}
use webos_bridge_64to.Buffers.State.{
  Bindings, bind_vertex_array, cleared, gl_bind_buffer, gl_bind_buffer_base, gl_delete_buffers,
  gl_delete_vertex_arrays, gl_element_array_buffer, gl_gen_vertex_arrays,
}

-- `binding` by target, and the element buffer of each vertex array.
pub record GlBuffers : Type 0 where
  pub binding : ℕ → ℕ
  pub vao : ℕ
  pub ebo : ℕ → ℕ

pub data Op : Type 0 where
  bind_buffer : ℕ → ℕ → Op
  bind_array : ℕ → Op
  bind_base : ℕ → ℕ → ℕ → Op
  delete_buffers : List ℕ → Op
  gen_arrays : List ℕ → Op
  delete_arrays : List ℕ → Op

-- Deleting a buffer unbinds it in the context and in the vertex array that is bound.
abbrev pub drop_buffers : List ℕ → GlBuffers → GlBuffers
drop_buffers [] g = g
drop_buffers (b ∷ more) g = drop_buffers more (record g {
  binding = λ t. cleared b (g.binding t);
  ebo = update g.ebo g.vao (cleared b (g.ebo g.vao));
})

abbrev pub new_arrays : List ℕ → GlBuffers → GlBuffers
new_arrays [] g = g
new_arrays (id ∷ more) g = new_arrays more (record g { ebo = update g.ebo id 0 })

-- Deleting the vertex array that is bound binds the one of name 0.
abbrev pub drop_arrays : List ℕ → GlBuffers → GlBuffers
drop_arrays [] g = g
drop_arrays (v ∷ more) g = drop_arrays more (record g { vao = cleared v g.vao })

-- An indexed binding sets the binding of the target too.
unfoldable pub documented : Op → GlBuffers → GlBuffers
documented (bind_buffer target b) g =
    if target == gl_element_array_buffer
    then record g { ebo = update g.ebo g.vao b }
    else record g { binding = update g.binding target b }
documented (bind_array v) g = record g { vao = v }
documented (bind_base target index b) g = record g { binding = update g.binding target b }
documented (delete_buffers bs) g = drop_buffers bs g
documented (gen_arrays ids) g = new_arrays ids g
documented (delete_arrays vs) g = drop_arrays vs g

unfoldable pub stub_op : Op → Bindings → Bool × Bindings
stub_op (bind_buffer target b) c = gl_bind_buffer target b c
stub_op (bind_array v) c = bind_vertex_array v c
stub_op (bind_base target index b) c = gl_bind_buffer_base target index b c
stub_op (delete_buffers bs) c = (true, gl_delete_buffers bs c)
stub_op (gen_arrays ids) c = (true, gl_gen_vertex_arrays ids c)
stub_op (delete_arrays vs) c = (true, gl_delete_vertex_arrays vs c)

-- The stub, the driver that is sent its calls, and the driver that is sent all calls.
pub record World : Type 0 where
  pub stub : Bindings
  pub through : GlBuffers
  pub full : GlBuffers

unfoldable pub run : List Op → World → World
run [] w = w
run (op ∷ more) w =
    let o = stub_op op w.stub in
    run more (record {
      stub = o.1;
      through = if o.0 then documented op w.through else w.through;
      full = documented op w.full;
    })
