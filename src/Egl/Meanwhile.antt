-- ===== src/Egl/Meanwhile.antt =====
-- proxy/protocol/egl.c: the handlers that run between two commands of a thread, as far as they leave what
-- is recorded for its context.
use webos_bridge_64to.Common.{
  ℕ, true, ◌<◌, ◌≡◌, ◌≢◌, ◌∙◌, ◌==◌, leb, if◌then◌else◌, refl, sym, arith,
}
use webos_bridge_64to.Egl.Table.{table_free, handle_at}
use webos_bridge_64to.Egl.State.{Egl, max_contexts, egl_max_contexts, disp, cfg, surf, ctx}
use webos_bridge_64to.Egl.Displays.{h_egl_get_display, h_egl_initialize, h_egl_terminate}
use webos_bridge_64to.Egl.Surfaces.{
  add_surface, forget_in_bindings, forget_surface, h_egl_create_window_surface,
  h_egl_create_pbuffer_surface, h_egl_create_pixmap_surface, h_egl_destroy_surface,
}
use webos_bridge_64to.Egl.Contexts.{
  h_egl_create_context, h_egl_destroy_context, h_egl_make_current, egl_bind_target_ctx,
}
use webos_bridge_64to.Egl.Bindings.{set_owner-handle, table_alloc-keeps, table_free-handle}
use webos_bridge_64to.Egl.System.{
  Step, get_display, initialize, terminate, read_configs, pick_configs, create_window,
  create_pbuffer, create_pixmap, destroy_surface, create_context, destroy_context, make_current,
  bind_target,
}

-- The handler destroys neither the context nor a surface that is recorded for it, and makes another context
-- current, or none.
unfoldable pub Spares : ℕ → {s t : Egl} → Step s t → Type 0
Spares a {s = s} (destroy_surface f di si) =
    ((s.bindings a).draw ≡ surf s si → (s.bindings a).draw ≡ 0)
    × ((s.bindings a).read ≡ surf s si → (s.bindings a).read ≡ 0)
Spares a (destroy_context f di xi) = xi ≢ a
Spares a (make_current f di draw read xi) = xi ≢ a
Spares a _ = Unit

-- Handlers that spare the context, one after the other.
pub data Meanwhile (a : ℕ) (s : Egl) : Egl → Type 0 where
  nothing : Meanwhile a s s
  further : {t u : Egl} → Meanwhile a s t → (st : Step t u) → Spares a st → Meanwhile a s u

-- What is recorded for the context, and its handle.
abbrev pub Kept : ℕ → Egl → Egl → Type 0
Kept a s t = (t.bindings a ≡ s.bindings a) × (ctx t a ≡ ctx s a)

destroy_surface-Kept :
    (a : ℕ) (f : ℕ → ℕ → ℕ) (di si : ℕ) (s : Egl)
    → ((s.bindings a).draw ≡ surf s si → (s.bindings a).draw ≡ 0)
    → ((s.bindings a).read ≡ surf s si → (s.bindings a).read ≡ 0)
    → Kept a s (h_egl_destroy_surface f di si s).1
unfolding h_egl_destroy_surface forget_in_bindings forget_surface
destroy_surface-Kept a f di si s draw read = grind arith

create_context-Kept :
    (a : ℕ) (f : ℕ → ℕ → ℕ → ℕ → ℕ) (pid di ci share attr : ℕ) (s : Egl)
    → a ≢ 0
    → a < max_contexts
    → ctx s a ≢ 0
    → Kept a s (h_egl_create_context f pid di ci share attr s).1
unfolding h_egl_create_context handle_at
create_context-Kept a f pid di ci share attr s nz small alive =
    let real = f (disp s di) (cfg s ci) (if share == 0 then 0 else ctx s share) attr in
    let inside : leb a egl_max_contexts ≡ true = ground arith in
    let there : (s.contexts a).handle ≢ 0 = ground arith in
    (refl, ground (arith, table_alloc-keeps egl_max_contexts real pid s.contexts a there))

destroy_context-Kept :
    (a : ℕ) (f : ℕ → ℕ → ℕ) (di xi : ℕ) (s : Egl)
    → xi ≢ a
    → a < max_contexts
    → Kept a s (h_egl_destroy_context f di xi s).1
unfolding h_egl_destroy_context handle_at
destroy_context-Kept a f di xi s other small = (
  ground arith,
  ground (
    arith,
    table_free-handle xi s.contexts a,
    set_owner-handle xi 0 s.contexts a,
    set_owner-handle xi 0 (table_free xi s.contexts) a,
  ),
)

Step-Kept :
    (a : ℕ) {s t : Egl} (st : Step s t)
    → Spares a st
    → a ≢ 0
    → a < max_contexts
    → ctx s a ≢ 0
    → Kept a s t
unfolding Spares h_egl_get_display h_egl_initialize h_egl_terminate h_egl_create_window_surface
    h_egl_create_pbuffer_surface h_egl_create_pixmap_surface add_surface h_egl_create_context
    h_egl_destroy_context h_egl_make_current egl_bind_target_ctx handle_at
Step-Kept a (get_display f wl pid) sp nz small alive = ground arith
Step-Kept a (initialize f di) sp nz small alive = ground arith
Step-Kept a (terminate f di) sp nz small alive = ground arith
Step-Kept a (read_configs pid tmp) sp nz small alive = ground arith
Step-Kept a (pick_configs pid tmp) sp nz small alive = ground arith
Step-Kept a (create_window f windows pid di ci win attr) sp nz small alive = ground arith
Step-Kept a (create_pbuffer f pid di ci attr) sp nz small alive = ground arith
Step-Kept a (create_pixmap f pid di ci pix attr) sp nz small alive = ground arith
Step-Kept a {s = s} (destroy_surface f di si) (draw, read) nz small alive =
    destroy_surface-Kept a f di si s draw read
Step-Kept a {s = s} (create_context f pid di ci share attr) sp nz small alive =
    create_context-Kept a f pid di ci share attr s nz small alive
Step-Kept a {s = s} (destroy_context f di xi) sp nz small alive =
    destroy_context-Kept a f di xi s sp small
Step-Kept a (make_current f di draw read xi) sp nz small alive = ground arith
Step-Kept a (bind_target f xi) sp nz small alive = ground arith

pub Meanwhile-Kept :
    (a : ℕ) {s t : Egl} → Meanwhile a s t → a ≢ 0 → a < max_contexts → ctx s a ≢ 0 → Kept a s t
Meanwhile-Kept a nothing nz small alive = (refl, refl)
Meanwhile-Kept a (further before st spares) nz small alive =
    let (binding, handle) = Meanwhile-Kept a before nz small alive in
    let (binding', handle') = Step-Kept a st spares nz small (λ e. alive (sym handle ∙ e)) in
    (binding' ∙ binding, handle' ∙ handle)
