-- ===== src/Egl/Surfaces.antt =====
-- proxy/protocol/egl.c: the handlers that create and destroy surfaces.
use webos_bridge_64to.Common.{ℕ, ◌==◌, ◌||◌, not, leb, if◌then◌else◌}
use webos_bridge_64to.Egl.Table.{table_alloc, table_free, set_owner}
use webos_bridge_64to.Egl.State.{Egl, CtxBinding, max_surfaces, egl_max_contexts, disp, surf, cfg}

-- The end of the three handlers that create a surface; `real` is what the driver returned.
unfoldable pub add_surface : ℕ → ℕ → Egl → ℕ × Egl
add_surface client_pid real s =
    let (si, surfaces) =
      if real == 0
      then (0, s.surfaces)
      else table_alloc max_surfaces real client_pid (s.surfaces) in
    (si, record s { surfaces = set_owner si client_pid surfaces })

abbrev pub max_wl_egl_windows : ℕ
max_wl_egl_windows = 64

-- `windows` is `proxy_wl_egl_windows`; the driver's function takes display, config, window and
-- attributes.
unfoldable pub h_egl_create_window_surface :
    (ℕ → ℕ → ℕ → ℕ → ℕ) → (ℕ → ℕ) → (client_pid display config win_slot attr : ℕ) → Egl → ℕ × Egl
h_egl_create_window_surface eglCreateWindowSurface windows client_pid display config win_slot attr
      s =
    if leb max_wl_egl_windows win_slot
    then (0, s)
    else if windows win_slot == 0
    then (0, s)
    else add_surface client_pid
        (eglCreateWindowSurface (disp s display) (cfg s config) (windows win_slot) attr) s

unfoldable pub h_egl_create_pbuffer_surface :
    (ℕ → ℕ → ℕ → ℕ) → (client_pid di ci attr : ℕ) → Egl → ℕ × Egl
h_egl_create_pbuffer_surface eglCreatePbufferSurface client_pid di ci attr s =
    add_surface client_pid (eglCreatePbufferSurface (disp s di) (cfg s ci) attr) s

unfoldable pub h_egl_create_pixmap_surface :
    (ℕ → ℕ → ℕ → ℕ → ℕ) → (client_pid di ci pix attr : ℕ) → Egl → ℕ × Egl
h_egl_create_pixmap_surface eglCreatePixmapSurface client_pid di ci pix attr s =
    add_surface client_pid (eglCreatePixmapSurface (disp s di) (cfg s ci) pix attr) s

-- "Don't re-bind a context to a dead surface later", for one of the bindings.
unfoldable pub forget_surface : ℕ → CtxBinding → CtxBinding
forget_surface real b = record b {
  draw = if b.draw == real then 0 else b.draw;
  read = if b.read == real then 0 else b.read;
}

-- The loop runs over the indices from 1 to EGL_BRIDGE_MAX_CONTEXTS.
unfoldable pub forget_in_bindings : ℕ → (ℕ → CtxBinding) → ℕ → CtxBinding
forget_in_bindings real bindings i =
    if i == 0 || not (leb i egl_max_contexts) then bindings i else forget_surface real (bindings i)

unfoldable pub h_egl_destroy_surface : (ℕ → ℕ → ℕ) → (di si : ℕ) → Egl → ℕ × Egl
h_egl_destroy_surface eglDestroySurface di si s =
    let real = surf s si in
    let ok = eglDestroySurface (disp s di) real in
    let freed = if ok == 0 then s else record s {
      surfaces = table_free si (s.surfaces);
      bindings = forget_in_bindings real (s.bindings);
    } in
    (ok, record freed { surfaces = set_owner si 0 (freed.surfaces) })
