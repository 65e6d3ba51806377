-- ===== src/Egl/Bindings/ByContext.antt =====
-- The invariant under the handlers of contexts and of dead surfaces in proxy/protocol/egl.c.
use webos_bridge_64to.Common.{ℕ, true, false, ◌≤◌, ◌≡◌, inl, inr, ◌==◌, if◌then◌else◌, arith, ◌∙◌}
use native.Mathlib.Decide.{ℕ_discrete}
use webos_bridge_64to.Egl.Table.{Table, table_free, set_owner, handle_at}
use webos_bridge_64to.Egl.State.{
  Egl, CtxBinding, max_surfaces, egl_max_contexts, disp, surf, cfg, ctx,
}
use webos_bridge_64to.Egl.Surfaces.{forget_surface, forget_in_bindings, h_egl_destroy_surface}
use webos_bridge_64to.Egl.Contexts.{
  h_egl_create_context, h_egl_destroy_context, h_egl_make_current, egl_bind_target_ctx,
}
use webos_bridge_64to.Egl.Bindings.ByHandler.{AllLive-keep}
use webos_bridge_64to.Egl.Bindings.Defs.{
  IsLive, Inv, handle_at-IsLive, table_alloc-IsNull, set_owner-handle, table_free-handle,
}

-- What stays of a binding still stands in the table when the surface `real` at `si` is freed.
freed_IsLive :
    (si h : ℕ) (t : Table)
    → IsLive t h
    → IsLive (table_free si t) (if h == handle_at max_surfaces t si then 0 else h)
unfolding handle_at
freed_IsLive si h t (inl e) = ground arith
freed_IsLive si h t (inr (j, lo, hi, e)) = elim (ℕ_discrete h (handle_at max_surfaces t si)) [
  | yes same ↦ inl (ground arith)
  | no other ↦ inr (j, lo, hi, ground (arith, other, table_free-handle si t j))
]

forgotten :
    (real : ℕ) (bindings : ℕ → CtxBinding) (i : ℕ)
    → 1 ≤ i
    → i ≤ egl_max_contexts
    → forget_in_bindings real bindings i ≡ forget_surface real (bindings i)
unfolding forget_in_bindings
forgotten real bindings i lo hi = ground arith

abbrev freed_state : ℕ → Egl → Egl
freed_state si s = record s {
  surfaces = table_free si (s.surfaces);
  bindings = forget_in_bindings (surf s si) (s.bindings);
}

freed-Inv : (si : ℕ) (s : Egl) → Inv s → Inv (freed_state si s)
unfolding forget_surface
freed-Inv si s inv = record {
  displays = inv.displays;
  configs = inv.configs;
  contexts = inv.contexts;
  surfaces = ground (arith, inv.surfaces, table_free-handle si (s.surfaces) 0);
  live = λ i lo hi. rw (forgotten (surf s si) (s.bindings) i lo hi) (
    freed_IsLive si (s.bindings i).draw (s.surfaces) (inv.live i lo hi).0,
    freed_IsLive si (s.bindings i).read (s.surfaces) (inv.live i lo hi).1,
  );
}

disown-Inv : (si : ℕ) (s : Egl) → Inv s → Inv (record s { surfaces = set_owner si 0 (s.surfaces) })
disown-Inv si s inv = record {
  displays = inv.displays;
  configs = inv.configs;
  contexts = inv.contexts;
  surfaces = set_owner-handle si 0 (s.surfaces) 0 ∙ inv.surfaces;
  live =
      AllLive-keep (s.surfaces) (set_owner si 0 (s.surfaces)) (s.bindings)
        (λ j h. set_owner-handle si 0 (s.surfaces) j) inv.live;
}

pub destroy_surface-Inv :
    (f : ℕ → ℕ → ℕ) (di si : ℕ) (s : Egl) → Inv s → Inv (h_egl_destroy_surface f di si s).1
unfolding h_egl_destroy_surface
destroy_surface-Inv f di si s inv =
    disown-Inv si (if f (disp s di) (surf s si) == 0 then s else freed_state si s)
      (elim (f (disp s di) (surf s si) == 0) as (λ b. Inv (if b then s else freed_state si s)) [
        | true ↦ inv
        | false ↦ freed-Inv si s inv
      ])

pub create_context-Inv :
    (f : ℕ → ℕ → ℕ → ℕ → ℕ) (pid di ci share attr : ℕ) (s : Egl)
    → Inv s
    → Inv (h_egl_create_context f pid di ci share attr s).1
unfolding h_egl_create_context
create_context-Inv f pid di ci share attr s inv =
    let real = f (disp s di) (cfg s ci) (if share == 0 then 0 else ctx s share) attr in
    record {
      displays = inv.displays;
      configs = inv.configs;
      contexts =
          ground (arith, inv.contexts, table_alloc-IsNull egl_max_contexts real pid (s.contexts));
      surfaces = inv.surfaces;
      live = inv.live;
    }

pub destroy_context-Inv :
    (f : ℕ → ℕ → ℕ) (di xi : ℕ) (s : Egl) → Inv s → Inv (h_egl_destroy_context f di xi s).1
unfolding h_egl_destroy_context
destroy_context-Inv f di xi s inv = record {
  displays = ground arith;
  configs = ground arith;
  contexts = ground (
    arith,
    inv.contexts,
    table_free-handle xi (s.contexts) 0,
    set_owner-handle xi 0 (s.contexts) 0,
    set_owner-handle xi 0 (table_free xi (s.contexts)) 0,
  );
  surfaces = ground arith;
  live = λ i lo hi. ground (arith, inv.live i lo hi);
}

pub make_current-Inv :
    (f : ℕ → ℕ → ℕ → ℕ → ℕ) (di draw read xi : ℕ) (s : Egl)
    → Inv s
    → Inv (h_egl_make_current f di draw read xi s).1
unfolding h_egl_make_current
make_current-Inv f di draw read xi s inv = record {
  displays = ground arith;
  configs = ground arith;
  contexts = ground arith;
  surfaces = ground arith;
  live = λ i lo hi. ground (
    arith,
    inv.live i lo hi,
    handle_at-IsLive (s.surfaces) draw inv.surfaces,
    handle_at-IsLive (s.surfaces) read inv.surfaces,
  );
}

pub bind_target-Inv :
    (f : ℕ → ℕ → ℕ → ℕ → ℕ) (xi : ℕ) (s : Egl) → Inv s → Inv (egl_bind_target_ctx f xi s)
unfolding egl_bind_target_ctx
bind_target-Inv f xi s inv = record {
  displays = ground arith;
  configs = ground arith;
  contexts = ground arith;
  surfaces = ground arith;
  live = λ i lo hi. ground (arith, inv.live i lo hi);
}
