-- ===== src/Egl/Rebind.antt =====
-- proxy/protocol/egl.c: the context that the proxy makes current before a command.
use webos_bridge_64to.Common.{
  ℕ, true, false, ap, ◌∙◌, ◌<◌, ◌≡◌, ◌≢◌, ◌||◌, ◌&&◌, not, leb, ◌==◌, if◌then◌else◌, update, arith,
  refl, sym,
}
use webos_bridge_64to.Egl.State.{
  Egl, CtxBinding, Current, max_contexts, egl_max_contexts, disp, surf, ctx,
}
use webos_bridge_64to.Egl.Contexts.{h_egl_make_current, egl_bind_target_ctx}
use webos_bridge_64to.Egl.Meanwhile.{Meanwhile, Meanwhile-Kept}

abbrev pub Accepts : (ℕ → ℕ → ℕ → ℕ → ℕ) → Type 0
Accepts f = (dpy draw read real : ℕ) → f dpy draw read real ≢ 0

-- What an accepted `h_eglMakeCurrent` leaves.
abbrev made : (d dr rd c : ℕ) → Egl → Egl
made d dr rd c s = record s {
  driver = record { dpy = disp s d; draw = surf s dr; read = surf s rd; ctx = ctx s c };
  current_ctx = c;
  bindings =
      if not (c == 0) && leb c egl_max_contexts
      then update s.bindings c
          (record { dpy = disp s d; draw = surf s dr; read = surf s rd; valid = 1 })
      else s.bindings;
}

make_current-made :
    (f : ℕ → ℕ → ℕ → ℕ → ℕ) (d dr rd c : ℕ) (s : Egl)
    → Accepts f
    → (h_egl_make_current f d dr rd c s).1 ≡ made d dr rd c s
unfolding h_egl_make_current
make_current-made f d dr rd c s accepts =
    let taken : (f (disp s d) (surf s dr) (surf s rd) (ctx s c) == 0) ≡ false =
      ground (arith, accepts (disp s d) (surf s dr) (surf s rd) (ctx s c)) in
    rw taken refl

-- A thread makes `a` current, and another thread makes `b` current.
abbrev pub interleaved : (ℕ → ℕ → ℕ → ℕ → ℕ) → (d dr rd a d' dr' rd' b : ℕ) → Egl → Egl
interleaved f d dr rd a d' dr' rd' b s =
    (h_egl_make_current f d' dr' rd' b (h_egl_make_current f d dr rd a s).1).1

interleaved-made :
    (f : ℕ → ℕ → ℕ → ℕ → ℕ) (d dr rd a d' dr' rd' b : ℕ) (s : Egl)
    → Accepts f
    → interleaved f d dr rd a d' dr' rd' b s ≡ made d' dr' rd' b (made d dr rd a s)
interleaved-made f d dr rd a d' dr' rd' b s accepts =
    ap (λ t. (h_egl_make_current f d' dr' rd' b t).1) (make_current-made f d dr rd a s accepts)
    ∙ make_current-made f d' dr' rd' b (made d dr rd a s) accepts

-- What the driver is asked for with a binding.
abbrev asked : ℕ → CtxBinding → Current
asked real b = record { dpy = b.dpy; draw = b.draw; read = b.read; ctx = real }

-- What `egl_bind_target_ctx` does for a context that has a binding and is not current.
bind_takes :
    (f : ℕ → ℕ → ℕ → ℕ → ℕ) (a : ℕ) (t : Egl)
    → Accepts f
    → a ≢ 0
    → a < max_contexts
    → a ≢ t.current_ctx
    → (t.bindings a).valid ≢ 0
    → ctx t a ≢ 0
    → let b = t.bindings a in
      (egl_bind_target_ctx f a t).current_ctx ≡ a
      × ((egl_bind_target_ctx f a t).driver
          ≡ record { dpy = b.dpy; draw = b.draw; read = b.read; ctx = ctx t a })
unfolding egl_bind_target_ctx
bind_takes f a t accepts nz small other valid alive =
    let b = t.bindings a in
    let here : (a == 0 || (a == t.current_ctx || leb max_contexts a)) ≡ false = ground arith in
    let there : (b.valid == 0 || ctx t a == 0) ≡ false = ground arith in
    let taken : (f (b.dpy) (b.draw) (b.read) (ctx t a) == 0) ≡ false =
      ground (arith, accepts (b.dpy) (b.draw) (b.read) (ctx t a)) in
    rw (here, there, taken) (refl, refl)

passes_over : (f : ℕ → ℕ → ℕ → ℕ → ℕ) (t : Egl) → egl_bind_target_ctx f max_contexts t ≡ t
unfolding egl_bind_target_ctx
passes_over f t =
    let here : (max_contexts == 0
          || (max_contexts == t.current_ctx || leb max_contexts max_contexts))
        ≡ true =
      ground arith in
    rw here refl

-- When the driver accepts each `eglMakeCurrent`: a thread makes the context `a` current, with an index from 1 to
-- MAX_CONTEXTS - 1, and then other handlers run, in any order and number, which make other contexts current and
-- destroy neither `a` nor a surface that is recorded for it. Before the next command of the thread, if `a` is not the
-- current one, `egl_bind_target_ctx` calls the driver with the very display, surfaces and context that the thread
-- itself made current, and `a` is the current index again.
pub bind_restores :
    (f : ℕ → ℕ → ℕ → ℕ → ℕ) (d dr rd a : ℕ) (s t : Egl)
    → Accepts f
    → a ≢ 0
    → a < max_contexts
    → ctx s a ≢ 0
    → Meanwhile a (h_egl_make_current f d dr rd a s).1 t
    → a ≢ t.current_ctx
    → let u = egl_bind_target_ctx f a t in
      (u.current_ctx ≡ a)
      × (u.driver ≡ record { dpy = disp s d; draw = surf s dr; read = surf s rd; ctx = ctx s a })
bind_restores f d dr rd a s t accepts nz small alive run other =
    let m : Egl = (h_egl_make_current f d dr rd a s).1 in
    let at_once : m ≡ made d dr rd a s = make_current-made f d dr rd a s accepts in
    let recorded : m.bindings a
        ≡ record { dpy = disp s d; draw = surf s dr; read = surf s rd; valid = 1 } =
      ap (λ (e : Egl). e.bindings a) at_once ∙ ground arith in
    let same : ctx m a ≡ ctx s a = ap (λ (e : Egl). ctx e a) at_once in
    let (kept, handle) = Meanwhile-Kept a run nz small (λ e. alive (sym same ∙ e)) in
    let valid : (t.bindings a).valid ≡ 1 = ap (λ (b : CtxBinding). b.valid) (kept ∙ recorded) in
    let (current, driver) =
      bind_takes f a t accepts nz small other (ground arith)
        (λ e. alive (sym (handle ∙ same) ∙ e)) in
    (current, driver ∙ (λ k. asked ((handle ∙ same) k) ((kept ∙ recorded) k)))

-- The table of contexts has an entry with index MAX_CONTEXTS, but `egl_bind_target_ctx` passes over it:
-- after another thread's context was made current, the commands of a thread with that context run in the
-- other one.
pub last_context_is_not_bound :
    (f : ℕ → ℕ → ℕ → ℕ → ℕ) (d dr rd d' dr' rd' b : ℕ) (s : Egl)
    → Accepts f
    → let t =
        egl_bind_target_ctx f max_contexts (interleaved f d dr rd max_contexts d' dr' rd' b s) in
      t.driver ≡ record { dpy = disp s d'; draw = surf s dr'; read = surf s rd'; ctx = ctx s b }
last_context_is_not_bound f d dr rd d' dr' rd' b s accepts =
    let two = made d' dr' rd' b (made d dr rd max_contexts s) in
    ap (λ (t : Egl). (egl_bind_target_ctx f max_contexts t).driver)
      (interleaved-made f d dr rd max_contexts d' dr' rd' b s accepts)
    ∙ ap (λ (t : Egl). t.driver) (passes_over f two)
