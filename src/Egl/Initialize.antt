-- ===== src/Egl/Initialize.antt =====
-- proxy/protocol/egl.c: displays that fail, or that a program initializes twice.
use webos_bridge_64to.Common.{ℕ, ◌≡◌, ◌≢◌, arith}
use webos_bridge_64to.Egl.Table.{find_handle, table_alloc, handle_at}
use webos_bridge_64to.Egl.State.{Egl, max_displays, disp}
use webos_bridge_64to.Egl.Lookup.{find_handle-found}
use webos_bridge_64to.Egl.Displays.{h_egl_get_display, h_egl_initialize}

-- Once `h_eglInitialize` has initialized a display, each further `eglInitialize` of it returns EGL_FALSE,
-- and changes nothing, whatever the driver would answer.
second_initialize_fails :
    (f g : ℕ → ℕ × ℕ × ℕ) (di : ℕ) (s : Egl)
    → disp s di ≢ 0
    → let t = (h_egl_initialize f di s).1 in h_egl_initialize g di t ≡ (0, t)
unfolding h_egl_initialize handle_at
second_initialize_fails f g di s alive = ground arith

-- When the driver has no display, the proxy connected to Wayland and the table of displays a free entry,
-- `h_eglGetDisplay` returns an index other than 0, which stands for NULL: the program gets a display
-- instead of EGL_NO_DISPLAY.
failed_display_gets_index :
    (f : ℕ → ℕ) (wl pid : ℕ) (s : Egl)
    → wl ≢ 0
    → f wl ≡ 0
    → find_handle max_displays 1 0 (s.displays) ≢ 0
    → let (idx, t) = h_egl_get_display f wl pid s in (idx ≢ 0) × (disp t idx ≡ 0)
unfolding h_egl_get_display table_alloc handle_at
failed_display_gets_index f wl pid s connected failed free =
    let found = find_handle-found max_displays 1 0 (s.displays) free in
    (ground arith, ground (arith, found))
