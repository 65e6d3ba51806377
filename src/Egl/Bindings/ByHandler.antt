-- ===== src/Egl/Bindings/ByHandler.antt =====
-- The invariant under the handlers of displays, configs and new surfaces in proxy/protocol/egl.c.
use webos_bridge_64to.Common.{
  ℕ, true, false, ◌≡◌, ◌≢◌, List, [], ◌∷◌, leb, ◌==◌, if◌then◌else◌, arith,
}
use webos_bridge_64to.Egl.Table.{Table, table_alloc}
use webos_bridge_64to.Egl.State.{
  Egl, CtxBinding, max_displays, max_configs, max_surfaces, disp, cfg,
}
use webos_bridge_64to.Egl.Displays.{h_egl_get_display, h_egl_initialize, h_egl_terminate}
use webos_bridge_64to.Egl.Configs.{get_config, get_configs, choose_config, choose_configs}
use webos_bridge_64to.Egl.Surfaces.{
  add_surface, h_egl_create_window_surface, h_egl_create_pbuffer_surface,
  h_egl_create_pixmap_surface,
}
use webos_bridge_64to.Egl.Bindings.Defs.{
  IsLive, AllLive, IsNull, Inv, IsLive-keep, table_alloc-keeps, table_alloc-IsNull,
  set_owner-handle,
}

pub get_display-Inv :
    (f : ℕ → ℕ) (wl pid : ℕ) (s : Egl) → Inv s → Inv (h_egl_get_display f wl pid s).1
unfolding h_egl_get_display
get_display-Inv f wl pid s inv = record {
  displays = ground (arith, table_alloc-IsNull max_displays (f wl) pid (s.displays));
  configs = ground arith;
  contexts = ground arith;
  surfaces = ground arith;
  live = λ i lo h. ground (arith, inv.live i lo h);
}

pub initialize-Inv :
    (f : ℕ → ℕ × ℕ × ℕ) (di : ℕ) (s : Egl) → Inv s → Inv (h_egl_initialize f di s).1
unfolding h_egl_initialize
initialize-Inv f di s inv = record {
  displays = ground arith;
  configs = ground arith;
  contexts = ground arith;
  surfaces = ground arith;
  live = λ i lo h. ground (arith, inv.live i lo h);
}

pub terminate-Inv : (f : ℕ → ℕ) (di : ℕ) (s : Egl) → Inv s → Inv (h_egl_terminate f di s).1
unfolding h_egl_terminate
terminate-Inv f di s inv = record {
  displays = ground arith;
  configs = inv.configs;
  contexts = inv.contexts;
  surfaces = inv.surfaces;
  live = inv.live;
}

pub get_configs-IsNull :
    (pid : ℕ) (tmp : List ℕ) (t : Table) → IsNull t → IsNull (get_configs pid tmp t).1
unfolding get_configs get_config
get_configs-IsNull pid [] t h = h
get_configs-IsNull pid (real ∷ tmp) t h =
    get_configs-IsNull pid tmp (get_config pid real t).1
      (table_alloc-IsNull max_configs real pid t h)

pub choose_configs-IsNull :
    (pid : ℕ) (tmp : List ℕ) (t : Table) → IsNull t → IsNull (choose_configs pid tmp t).1
unfolding choose_configs choose_config
choose_configs-IsNull pid [] t h = h
choose_configs-IsNull pid (real ∷ tmp) t h =
    choose_configs-IsNull pid tmp (choose_config pid real t).1
      (ground (arith, table_alloc-IsNull max_configs real pid t))

pub AllLive-keep :
    (t t' : Table) (bindings : ℕ → CtxBinding)
    → ((j : ℕ) → (t j).handle ≢ 0 → (t' j).handle ≡ (t j).handle)
    → AllLive t bindings
    → AllLive t' bindings
AllLive-keep t t' bindings keep live i lo h =
    let carry : (r : ℕ) → IsLive t r → IsLive t' r =
      λ r. IsLive-keep t t' r (λ j e nz. ground (arith, keep j)) in
    (carry (bindings i).draw (live i lo h).0, carry (bindings i).read (live i lo h).1)

add_surface-keeps :
    (pid real : ℕ) (s : Egl) (j : ℕ)
    → (s.surfaces j).handle ≢ 0
    → ((add_surface pid real s).1.surfaces j).handle ≡ (s.surfaces j).handle
unfolding add_surface
add_surface-keeps pid real s j h = ground (
  arith,
  table_alloc-keeps max_surfaces real pid (s.surfaces) j,
  set_owner-handle 0 pid (s.surfaces) j,
  set_owner-handle (table_alloc max_surfaces real pid (s.surfaces)).0 pid
      (table_alloc max_surfaces real pid (s.surfaces)).1 j,
)

add_surface-Inv : (pid real : ℕ) (s : Egl) → Inv s → Inv (add_surface pid real s).1
unfolding add_surface
add_surface-Inv pid real s inv = record {
  displays = inv.displays;
  configs = inv.configs;
  contexts = inv.contexts;
  surfaces = ground (
    arith,
    inv.surfaces,
    table_alloc-IsNull max_surfaces real pid (s.surfaces),
    set_owner-handle 0 pid (s.surfaces) 0,
    set_owner-handle (table_alloc max_surfaces real pid (s.surfaces)).0 pid
        (table_alloc max_surfaces real pid (s.surfaces)).1 0,
  );
  live =
      AllLive-keep (s.surfaces) (add_surface pid real s).1.surfaces (s.bindings)
        (add_surface-keeps pid real s) inv.live;
}

pub create_window-Inv :
    (f : ℕ → ℕ → ℕ → ℕ → ℕ) (windows : ℕ → ℕ) (pid di ci win attr : ℕ) (s : Egl)
    → Inv s
    → Inv (h_egl_create_window_surface f windows pid di ci win attr s).1
unfolding h_egl_create_window_surface
create_window-Inv f windows pid di ci win attr s inv =
    let real = f (disp s di) (cfg s ci) (windows win) attr in
    elim (leb 64 win)
      as (λ b.
        Inv (if b then (0, s) else if windows win == 0 then (0, s) else add_surface pid real s).1) [
          | true ↦ inv
          | false ↦
              elim (windows win == 0)
                as (λ b. Inv (if b then (0, s) else add_surface pid real s).1) [
                  | true ↦ inv
                  | false ↦ add_surface-Inv pid real s inv
                ]
        ]

pub create_pbuffer-Inv :
    (f : ℕ → ℕ → ℕ → ℕ) (pid di ci attr : ℕ) (s : Egl)
    → Inv s
    → Inv (h_egl_create_pbuffer_surface f pid di ci attr s).1
unfolding h_egl_create_pbuffer_surface
create_pbuffer-Inv f pid di ci attr s inv = add_surface-Inv pid _ s inv

pub create_pixmap-Inv :
    (f : ℕ → ℕ → ℕ → ℕ → ℕ) (pid di ci pix attr : ℕ) (s : Egl)
    → Inv s
    → Inv (h_egl_create_pixmap_surface f pid di ci pix attr s).1
unfolding h_egl_create_pixmap_surface
create_pixmap-Inv f pid di ci pix attr s inv = add_surface-Inv pid _ s inv
