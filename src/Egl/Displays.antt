-- ===== src/Egl/Displays.antt =====
-- proxy/protocol/egl.c: `h_eglGetDisplay`, `h_eglInitialize`, `h_eglTerminate` and the look-ups of what is
-- current. The driver's functions are arguments. Each handler returns `C->result`, then the state.
use webos_bridge_64to.Common.{ℕ, ◌==◌, ◌&&◌, not, if◌then◌else◌, update}
use webos_bridge_64to.Egl.Table.{find_handle, table_alloc}
use webos_bridge_64to.Egl.State.{
  Egl, max_displays, max_surfaces, egl_max_contexts, default_egl_idx, disp,
}

-- `proxy_wl_display` is the proxy's own Wayland display, 0 before it is connected.
unfoldable pub h_egl_get_display : (ℕ → ℕ) → ℕ → ℕ → Egl → ℕ × Egl
h_egl_get_display eglGetDisplay proxy_wl_display client_pid s =
    if proxy_wl_display == 0
    then (0, s)
    else (let real = eglGetDisplay proxy_wl_display in
        let (idx, displays) = table_alloc max_displays real client_pid (s.displays) in
        if idx == 0 && not (real == 0)
        then (
          1,
          record s {
            displays =
                update displays default_egl_idx
                  (record (displays default_egl_idx) { handle = real; owner_pid = client_pid });
          },
        )
        else (idx, record s { displays = displays }))

-- The driver's `eglInitialize` returns a Boolean and two version numbers.
unfoldable pub h_egl_initialize : (ℕ → ℕ × ℕ × ℕ) → ℕ → Egl → ℕ × Egl
h_egl_initialize eglInitialize di s =
    let real = disp s di in
    let e = s.displays di in
    if not (real == 0) && (e.initialized == 0)
    then (let (ok, major, minor) = eglInitialize real in
        (
          ok,
          record s {
            displays =
                update s.displays di (record e { initialized = 1; major = major; minor = minor });
          },
        ))
    else (0, s)

unfoldable pub h_egl_terminate : (ℕ → ℕ) → ℕ → Egl → ℕ × Egl
h_egl_terminate eglTerminate di s =
    let result = eglTerminate (disp s di) in
    let e = s.displays di in
    let kept = if result == 0 then e else record e { initialized = 0; major = 0; minor = 0 } in
    (result, record s { displays = update s.displays di (record kept { owner_pid = 0 }) })

-- `h_eglGetCurrentDisplay`, `h_eglGetCurrentSurface` and `h_eglGetCurrentContext`: the index of what
-- the driver says is current.
unfoldable pub h_egl_get_current_display : ℕ → Egl → ℕ
h_egl_get_current_display real s =
    if real == 0 then 0 else find_handle max_displays 1 real (s.displays)

unfoldable pub h_egl_get_current_surface : ℕ → Egl → ℕ
h_egl_get_current_surface real s =
    if real == 0 then 0 else find_handle max_surfaces 1 real (s.surfaces)

unfoldable pub h_egl_get_current_context : ℕ → Egl → ℕ
h_egl_get_current_context real s =
    if real == 0 then 0 else find_handle egl_max_contexts 1 real (s.contexts)
