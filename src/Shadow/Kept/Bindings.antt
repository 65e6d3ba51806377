-- ===== src/Shadow/Kept/Bindings.antt =====
-- The setters of bindings: the active unit, framebuffers, samplers, and the capabilities.
use webos_bridge_64to.Common.{
  ℕ, ◌^◌, ◌<◌, ◌≡◌, ap, inl, inr, Bool, true, false, ◌&&◌, arith, ◌==◌, Bool-cases, Option-cases,
  update_same, ltb, ℕ_discrete,
}
use webos_bridge_64to.Shadow.State.{StubContext, shadow_cap_slot}
use webos_bridge_64to.Shadow.Calls.{
  same_flag, gl_framebuffer, gl_draw_framebuffer, gl_read_framebuffer, mark_restart, store_cap,
  gl_active_texture, gl_bind_framebuffer, gl_bind_sampler, set_cap,
}
use webos_bridge_64to.Shadow.Gl
use webos_bridge_64to.Shadow.Gl.{GlState, gl_effect, stub_call, bound_framebuffers}
use webos_bridge_64to.Shadow.Agree.{Agrees, cap_slot-injective}
use webos_bridge_64to.Shadow.Kept.{Sound, settled}

module _ (c : StubContext) (g : GlState) (h : Agrees c.shadow g) where
  pub active_texture-Sound : (t : ℕ) → t < 2 ^ 32 → Sound (Gl.active_texture t) c g
  unfolding stub_call gl_effect gl_active_texture
  active_texture-Sound t small = elim (Bool-cases (c.shadow.active_texture == t)) [
    | inl e ↦ rw e (
        settled c.shadow g (gl_effect (Gl.active_texture t) g) h
          (ap (λ q. record g { active_texture = q }) (ground (arith, h.active_texture))))
    | inr e ↦ rw e (grind arith, λ no. ground arith)
  ]

  pub bind_framebuffer-Sound : (t f : ℕ) → Sound (Gl.bind_framebuffer t f) c g
  unfolding stub_call gl_effect gl_bind_framebuffer
  bind_framebuffer-Sound t f = elim (Bool-cases (t == gl_framebuffer)) [
    | inl both ↦ elim (Bool-cases (c.shadow.draw_fb == f && c.shadow.read_fb == f)) [
      | inl e ↦
          rw (both, e)
            (settled c.shadow g (record g { draw_fb = f; read_fb = f }) h
              (ground (arith, h.draw_fb, h.read_fb)))
      | inr e ↦ rw (both, e) (grind arith, λ no. ground arith)
    ]
    | inr other ↦ elim (Bool-cases (t == gl_draw_framebuffer)) [
      | inl draw ↦ elim (Bool-cases (c.shadow.draw_fb == f)) [
        | inl e ↦
            rw (other, draw, e)
              (settled c.shadow g (record g { draw_fb = f }) h (ground (arith, h.draw_fb)))
        | inr e ↦ rw (other, draw, e) (grind arith, λ no. ground arith)
      ]
      | inr no_draw ↦ elim (Bool-cases (t == gl_read_framebuffer)) [
        | inl read ↦ elim (Bool-cases (c.shadow.read_fb == f)) [
          | inl e ↦
              rw (other, no_draw, read, e)
                (settled c.shadow g (record g { read_fb = f }) h (ground (arith, h.read_fb)))
          | inr e ↦ rw (other, no_draw, read, e) (grind arith, λ no. ground arith)
        ]
        | inr neither ↦ rw (other, no_draw, neither) (h, λ no. ground arith)
      ]
    ]
  ]

  pub bind_sampler-Sound : (u t : ℕ) → Sound (Gl.bind_sampler u t) c g
  unfolding stub_call gl_effect gl_bind_sampler ℕ_discrete
  bind_sampler-Sound u t = elim (Bool-cases (ltb u 32)) [
    | inl small ↦ elim (Bool-cases (c.shadow.sampler u == t)) [
      | inl e ↦
          let here : g.sampler u ≡ t = ground (arith, h.sampler u) in
          rw (small, e)
            (settled c.shadow g (gl_effect (Gl.bind_sampler u t) g) h
              (ap (λ q. record g { sampler = q }) (update_same g.sampler u t here)))
      | inr e ↦ rw (small, e) (grind arith, λ no. ground arith)
    ]
    | inr big ↦ rw big (grind arith, λ no. ground arith)
  ]

  -- The store, wherever the flag of the restart index is set.
  pub store_cap-Sound :
      (on : Bool) (e : ℕ)
      → let o = store_cap on (shadow_cap_slot e) c in
        Agrees o.1.shadow (gl_effect (Gl.enable on e) g)
        × (o.0 ≡ false → (true ≡ true) × (gl_effect (Gl.enable on e) g ≡ g))
  unfolding gl_effect store_cap ℕ_discrete
  store_cap-Sound on e = elim (Option-cases (shadow_cap_slot e)) [
    | inl none_there ↦ rw none_there (grind arith, λ no. ground arith)
    | inr (i, slot) ↦ elim (Bool-cases (same_flag (c.shadow.cap i) on)) [
      | inl same ↦
          let here : g.cap e ≡ on = ground (arith, h.cap e i slot) in
          rw (slot, same)
            (settled c.shadow g (gl_effect (Gl.enable on e) g) h
              (ap (λ q. record g { cap = q }) (update_same g.cap e on here)))
      | inr other ↦ rw (slot, other) (grind (arith, cap_slot-injective), λ no. ground arith)
    ]
  ]

pub enable-Sound :
    (c : StubContext) (g : GlState) (h : Agrees c.shadow g) (on : Bool) (e : ℕ)
    → Sound (Gl.enable on e) c g
unfolding stub_call set_cap mark_restart
enable-Sound c g h on e = store_cap-Sound (mark_restart on e c) g h on e
