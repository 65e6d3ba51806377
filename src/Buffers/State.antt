-- ===== src/Buffers/State.antt =====
-- The bindings of one context, and the calls that read and change them. Each call returns whether it
-- is sent to the proxy.
use webos_bridge_64to.Common.{
  ℕ, Bool, true, false, List, [], ◌∷◌, Option, none, some, ltb, ◌==◌, if◌then◌else◌, update,
}

-- `binding` holds the twelve fields of `GLState`, in the order of their declaration, `vao` the vertex
-- array of `StubShadowState`, and `ebo` that of the elements of `GLContextState.vaos`.
pub record Bindings : Type 0 where
  pub binding : ℕ → ℕ
  pub vao : ℕ
  pub current_vao : ℕ
  pub ebo : ℕ → ℕ

abbrev pub gl_element_array_buffer : ℕ
gl_element_array_buffer = 34963

-- The field of `GLState` for a target other than that of elements, if there is one.
unfoldable pub buffer_slot : ℕ → Option ℕ
buffer_slot target =
    if target == 34962
    then some 0
    else if target == 35051
    then some 1
    else if target == 35052
    then some 2
    else if target == 35345
    then some 3
    else if target == 35882
    then some 4
    else if target == 35982
    then some 5
    else if target == 36662
    then some 6
    else if target == 36663
    then some 7
    else if target == 37074
    then some 8
    else if target == 37568
    then some 9
    else if target == 37102
    then some 10
    else if target == 36671
    then some 11
    else none

-- A field that may not exist is read as 0.
unfoldable pub read_slot : Option ℕ → Bindings → ℕ
read_slot none c = 0
read_slot (some i) c = c.binding i

unfoldable pub get_bound_buffer : ℕ → Bindings → ℕ
get_bound_buffer target c =
    if target == gl_element_array_buffer
    then c.ebo c.current_vao
    else read_slot (buffer_slot target) c

-- A case of the switch of `glBindBuffer`, or its default.
unfoldable pub bind_slot : Option ℕ → ℕ → Bindings → Bool × Bindings
bind_slot none buffer c = (true, c)
bind_slot (some i) buffer c =
    if c.binding i == buffer
    then (false, c)
    else (true, record c { binding = update c.binding i buffer })

unfoldable pub gl_bind_buffer : ℕ → ℕ → Bindings → Bool × Bindings
gl_bind_buffer target buffer c =
    if target == gl_element_array_buffer
    then (if c.ebo c.current_vao == buffer
        then (false, c)
        else (true, record c { ebo = update c.ebo c.current_vao buffer }))
    else bind_slot (buffer_slot target) buffer c

unfoldable pub bind_vertex_array : ℕ → Bindings → Bool × Bindings
bind_vertex_array array c =
    if c.vao == array then (false, c) else (true, record c { vao = array; current_vao = array })

-- `glBindBufferBase` keeps nothing.
unfoldable pub gl_bind_buffer_base : ℕ → ℕ → ℕ → Bindings → Bool × Bindings
gl_bind_buffer_base target index buffer c = (true, c)

unfoldable pub cleared : ℕ → ℕ → ℕ
cleared name bound = if bound == name then 0 else bound

-- `stub_gl_state_invalidate_buffer`, in the current context.
unfoldable pub invalidate_buffer : ℕ → Bindings → Bindings
invalidate_buffer buffer c = if buffer == 0 then c else record c {
  binding = λ i. cleared buffer (c.binding i);
  ebo = λ v. if ltb v 1024 then cleared buffer (c.ebo v) else c.ebo v;
}

unfoldable pub gl_delete_buffers : List ℕ → Bindings → Bindings
gl_delete_buffers [] c = c
gl_delete_buffers (b ∷ more) c = gl_delete_buffers more (invalidate_buffer b c)

-- `glGenVertexArrays`, once the proxy has returned the names.
unfoldable pub gl_gen_vertex_arrays : List ℕ → Bindings → Bindings
gl_gen_vertex_arrays [] c = c
gl_gen_vertex_arrays (id ∷ more) c =
    gl_gen_vertex_arrays more (record c { ebo = update c.ebo id 0 })

-- `shadow_invalidate_vao` for each name.
unfoldable pub gl_delete_vertex_arrays : List ℕ → Bindings → Bindings
gl_delete_vertex_arrays [] c = c
gl_delete_vertex_arrays (v ∷ more) c =
    gl_delete_vertex_arrays more (if v == 0 then c else record c { vao = cleared v c.vao })
