-- ===== src/Egl/Bindings/All.antt =====
-- The handlers of proxy/protocol/egl.c in any order, and the invariant.
use webos_bridge_64to.Common.{ℕ, ◌≤◌, ◌<◌, ◌≡◌, arith, refl, inl, ◌⊎◌}
use webos_bridge_64to.Egl.Table.{handle_at}
use webos_bridge_64to.Egl.State.{
  Egl, egl_tables_init, egl_max_contexts, max_configs, disp, cfg, ctx, surf,
}
use webos_bridge_64to.Egl.System.{
  Step, get_display, initialize, terminate, read_configs, pick_configs, create_window,
  create_pbuffer, create_pixmap, destroy_surface, create_context, destroy_context, make_current,
  bind_target, Reach, start, later,
}
use webos_bridge_64to.Egl.Bindings.Defs.{IsLive, Inv}
use webos_bridge_64to.Egl.Bindings.ByHandler.{
  get_display-Inv, initialize-Inv, terminate-Inv, get_configs-IsNull, choose_configs-IsNull,
  create_window-Inv, create_pbuffer-Inv, create_pixmap-Inv,
}
use webos_bridge_64to.Egl.Bindings.ByContext.{
  destroy_surface-Inv, create_context-Inv, destroy_context-Inv, make_current-Inv, bind_target-Inv,
}

Step-Inv : {s t : Egl} → Step s t → Inv s → Inv t
Step-Inv {s} (get_display f wl pid) inv = get_display-Inv f wl pid s inv
Step-Inv {s} (initialize f di) inv = initialize-Inv f di s inv
Step-Inv {s} (terminate f di) inv = terminate-Inv f di s inv
Step-Inv {s} (read_configs pid tmp) inv = record {
  displays = inv.displays;
  configs = get_configs-IsNull pid tmp (s.configs) inv.configs;
  contexts = inv.contexts;
  surfaces = inv.surfaces;
  live = inv.live;
}
Step-Inv {s} (pick_configs pid tmp) inv = record {
  displays = inv.displays;
  configs = choose_configs-IsNull pid tmp (s.configs) inv.configs;
  contexts = inv.contexts;
  surfaces = inv.surfaces;
  live = inv.live;
}
Step-Inv {s} (create_window f windows pid di ci win attr) inv =
    create_window-Inv f windows pid di ci win attr s inv
Step-Inv {s} (create_pbuffer f pid di ci attr) inv = create_pbuffer-Inv f pid di ci attr s inv
Step-Inv {s} (create_pixmap f pid di ci pix attr) inv = create_pixmap-Inv f pid di ci pix attr s inv
Step-Inv {s} (destroy_surface f di si) inv = destroy_surface-Inv f di si s inv
Step-Inv {s} (create_context f pid di ci share attr) inv =
    create_context-Inv f pid di ci share attr s inv
Step-Inv {s} (destroy_context f di xi) inv = destroy_context-Inv f di xi s inv
Step-Inv {s} (make_current f di draw read xi) inv = make_current-Inv f di draw read xi s inv
Step-Inv {s} (bind_target f xi) inv = bind_target-Inv f xi s inv

start-Inv : Inv egl_tables_init
start-Inv = record {
  displays = refl;
  configs = refl;
  contexts = refl;
  surfaces = refl;
  live = λ i lo hi. (inl refl, inl refl);
}

Reach-Inv : {s : Egl} → Reach s → Inv s
Reach-Inv start = start-Inv
Reach-Inv (later r st) = Step-Inv st (Reach-Inv r)

-- Whatever handlers have run, each surface that the proxy has recorded for a context, to bind it again later, is
-- EGL_NO_SURFACE or stands in the table of surfaces. The table is the proxy's own: eglTerminate leaves it.
pub bound_surfaces-IsLive :
    {s : Egl}
    → Reach s
    → (i : ℕ) → 1 ≤ i
    → i ≤ egl_max_contexts
    → IsLive (s.surfaces) (s.bindings i).draw × IsLive (s.surfaces) (s.bindings i).read
bound_surfaces-IsLive run i lo hi = (Reach-Inv run).live i lo hi

-- Whatever handlers have run, index 0 and every index past the end of a table stand for NULL, in each of
-- the four tables.
foreign_index_is_null :
    {s : Egl}
    → Reach s
    → (i : ℕ) → ((i ≡ 0) ⊎ (max_configs < i))
    → (disp s i ≡ 0) × (cfg s i ≡ 0) × (ctx s i ≡ 0) × (surf s i ≡ 0)
unfolding handle_at
foreign_index_is_null run i out =
    let inv = Reach-Inv run in
    (
      ground (arith, inv.displays),
      ground (arith, inv.configs),
      ground (arith, inv.contexts),
      ground (arith, inv.surfaces),
    )
