-- ===== src/Egl/Contexts.antt =====
-- proxy/protocol/egl.c: the handlers of contexts, and the context switch before each command.
use webos_bridge_64to.Common.{ℕ, ◌==◌, ◌||◌, ◌&&◌, not, leb, if◌then◌else◌, update}
use webos_bridge_64to.Egl.Table.{table_alloc, table_free, set_owner}
use webos_bridge_64to.Egl.State.{Egl, egl_max_contexts, max_contexts, disp, surf, cfg, ctx}

-- The cache of framebuffer state that the source resets here belongs to another component.
unfoldable pub h_egl_create_context :
    (ℕ → ℕ → ℕ → ℕ → ℕ) → (client_pid di ci share_idx attr : ℕ) → Egl → ℕ × Egl
h_egl_create_context eglCreateContext client_pid di ci share_idx attr s =
    let share_real = if share_idx == 0 then 0 else ctx s share_idx in
    let real = eglCreateContext (disp s di) (cfg s ci) share_real attr in
    let (xi, contexts) =
      if real == 0
      then (0, s.contexts)
      else table_alloc egl_max_contexts real client_pid (s.contexts) in
    (xi, record s { contexts = contexts })

unfoldable pub h_egl_destroy_context : (ℕ → ℕ → ℕ) → (di xi : ℕ) → Egl → ℕ × Egl
h_egl_destroy_context eglDestroyContext di xi s =
    let ok = eglDestroyContext (disp s di) (ctx s xi) in
    let freed = if ok == 0 then s else record s {
      contexts = table_free xi (s.contexts);
      bindings =
          if leb xi egl_max_contexts
          then update s.bindings xi (record (s.bindings xi) { valid = 0 })
          else s.bindings;
    } in
    (ok, record freed { contexts = set_owner xi 0 (freed.contexts) })

-- The driver's `eglMakeCurrent`, with what is current afterwards.
abbrev pub call_make_current : (ℕ → ℕ → ℕ → ℕ → ℕ) → (dpy draw read real : ℕ) → Egl → ℕ × Egl
call_make_current eglMakeCurrent dpy draw read real s =
    let ok = eglMakeCurrent dpy draw read real in
    (
      ok,
      if ok == 0
          then s
          else record s { driver = record { dpy = dpy; draw = draw; read = read; ctx = real } },
    )

unfoldable pub h_egl_make_current :
    (ℕ → ℕ → ℕ → ℕ → ℕ) → (display draw read context : ℕ) → Egl → ℕ × Egl
h_egl_make_current eglMakeCurrent display draw read context s =
    let (ok, called) =
      call_make_current eglMakeCurrent (disp s display) (surf s draw) (surf s read) (ctx s context)
        s in
    if ok == 0 then (0, called) else (
      ok,
      record called {
        current_ctx = context;
        bindings =
            if not (context == 0) && leb context egl_max_contexts
            then update s.bindings context
                (record { dpy = disp s display; draw = surf s draw; read = surf s read; valid = 1 })
            else s.bindings;
      },
    )

unfoldable pub egl_bind_target_ctx : (ℕ → ℕ → ℕ → ℕ → ℕ) → ℕ → Egl → Egl
egl_bind_target_ctx eglMakeCurrent context s =
    if context == 0 || (context == s.current_ctx || leb max_contexts context)
    then s
    else (let b = s.bindings context in
        if b.valid == 0 || ctx s context == 0
        then s
        else (let (ok, called) =
              call_make_current eglMakeCurrent (b.dpy) (b.draw) (b.read) (ctx s context) s in
            if ok == 0 then called else record called { current_ctx = context }))
