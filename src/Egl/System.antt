-- ===== src/Egl/System.antt =====
-- The proxy's EGL handlers, called in any order and with any answers of the driver.
use webos_bridge_64to.Common.{ℕ, List}
use webos_bridge_64to.Egl.State.{Egl, egl_tables_init}
use webos_bridge_64to.Egl.Displays.{h_egl_get_display, h_egl_initialize, h_egl_terminate}
use webos_bridge_64to.Egl.Configs.{get_configs, choose_configs}
use webos_bridge_64to.Egl.Surfaces.{
  h_egl_create_window_surface, h_egl_create_pbuffer_surface, h_egl_create_pixmap_surface,
  h_egl_destroy_surface,
}
use webos_bridge_64to.Egl.Contexts.{
  h_egl_create_context, h_egl_destroy_context, h_egl_make_current, egl_bind_target_ctx,
}

pub data Step (s : Egl) : Egl → Type 0 where
  get_display : (f : ℕ → ℕ) (wl pid : ℕ) → Step s (h_egl_get_display f wl pid s).1
  initialize : (f : ℕ → ℕ × ℕ × ℕ) (di : ℕ) → Step s (h_egl_initialize f di s).1
  terminate : (f : ℕ → ℕ) (di : ℕ) → Step s (h_egl_terminate f di s).1
  read_configs :
      (pid : ℕ) (tmp : List ℕ) → Step s (record s { configs = (get_configs pid tmp (s.configs)).1 })
  pick_configs :
      (pid : ℕ) (tmp : List ℕ)
      → Step s (record s { configs = (choose_configs pid tmp (s.configs)).1 })
  create_window :
      (f : ℕ → ℕ → ℕ → ℕ → ℕ) (windows : ℕ → ℕ) (pid di ci win attr : ℕ)
      → Step s (h_egl_create_window_surface f windows pid di ci win attr s).1
  create_pbuffer :
      (f : ℕ → ℕ → ℕ → ℕ) (pid di ci attr : ℕ)
      → Step s (h_egl_create_pbuffer_surface f pid di ci attr s).1
  create_pixmap :
      (f : ℕ → ℕ → ℕ → ℕ → ℕ) (pid di ci pix attr : ℕ)
      → Step s (h_egl_create_pixmap_surface f pid di ci pix attr s).1
  destroy_surface : (f : ℕ → ℕ → ℕ) (di si : ℕ) → Step s (h_egl_destroy_surface f di si s).1
  create_context :
      (f : ℕ → ℕ → ℕ → ℕ → ℕ) (pid di ci share attr : ℕ)
      → Step s (h_egl_create_context f pid di ci share attr s).1
  destroy_context : (f : ℕ → ℕ → ℕ) (di xi : ℕ) → Step s (h_egl_destroy_context f di xi s).1
  make_current :
      (f : ℕ → ℕ → ℕ → ℕ → ℕ) (di draw read xi : ℕ)
      → Step s (h_egl_make_current f di draw read xi s).1
  bind_target : (f : ℕ → ℕ → ℕ → ℕ → ℕ) (xi : ℕ) → Step s (egl_bind_target_ctx f xi s)

pub data Reach : Egl → Type 0 where
  start : Reach egl_tables_init
  later : {s t : Egl} → Reach s → Step s t → Reach t
