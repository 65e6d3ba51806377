-- ===== src/Shadow/Kept/Values.antt =====
-- The setters of single values: program, vertex array, rectangles, masks, depth and blending.
use webos_bridge_64to.Common.{ℕ, ◌≡◌, ap, inl, inr, Bool, true, ◌&&◌, arith, ◌==◌, Bool-cases}
use webos_bridge_64to.Shadow.State.{Box, Mask, StubContext}
use webos_bridge_64to.Shadow.Calls.{
  same_flag, same_box, same_mask, gl_use_program, gl_viewport, gl_scissor, gl_blend_func,
  gl_blend_func_separate, gl_blend_equation, gl_blend_equation_separate, gl_color_mask,
  gl_depth_mask, gl_depth_func, gl_front_face, gl_bind_vertex_array,
}
use webos_bridge_64to.Shadow.Gl
use webos_bridge_64to.Shadow.Gl.{GlState, gl_effect, stub_call}
use webos_bridge_64to.Shadow.Agree.{Agrees}
use webos_bridge_64to.Shadow.Kept.{Sound, settled}

both_true-left : (a b : Bool) → (a && b) ≡ true → a ≡ true
both_true-left a b h = ground arith

both_true-right : (a b : Bool) → (a && b) ≡ true → b ≡ true
both_true-right a b h = ground arith

same_box-eq : (p q : Box) → same_box p q ≡ true → p ≡ q
unfolding same_box
same_box-eq p q h = ground arith

same_mask-eq : (p q : Mask) → same_mask p q ≡ true → p ≡ q
unfolding same_mask
same_mask-eq p q h = ground arith

module _ (c : StubContext) (g : GlState) (h : Agrees c.shadow g) where
  pub use_program-Sound : (p : ℕ) → Sound (Gl.use_program p) c g
  unfolding stub_call gl_effect gl_use_program
  use_program-Sound p = elim (Bool-cases (c.shadow.program == p)) [
    | inl e ↦ rw e (
        settled c.shadow g (gl_effect (Gl.use_program p) g) h
          (ap (λ q. record g { program = q }) (ground (arith, h.program))))
    | inr e ↦ rw e (grind arith, λ no. ground arith)
  ]

  pub bind_vertex_array-Sound : (v : ℕ) → Sound (Gl.bind_vertex_array v) c g
  unfolding stub_call gl_effect gl_bind_vertex_array
  bind_vertex_array-Sound v = elim (Bool-cases (c.shadow.vao == v)) [
    | inl e ↦ rw e (
        settled c.shadow g (gl_effect (Gl.bind_vertex_array v) g) h
          (ap (λ q. record g { vao = q }) (ground (arith, h.vao))))
    | inr e ↦ rw e (grind arith, λ no. ground arith)
  ]

  pub front_face-Sound : (m : ℕ) → Sound (Gl.front_face m) c g
  unfolding stub_call gl_effect gl_front_face
  front_face-Sound m = elim (Bool-cases (c.shadow.front_face == m)) [
    | inl e ↦ rw e (
        settled c.shadow g (gl_effect (Gl.front_face m) g) h
          (ap (λ q. record g { front_face = q }) (ground (arith, h.front_face))))
    | inr e ↦ rw e (grind arith, λ no. ground arith)
  ]

  pub depth_func-Sound : (m : ℕ) → Sound (Gl.depth_func m) c g
  unfolding stub_call gl_effect gl_depth_func
  depth_func-Sound m = elim (Bool-cases (c.shadow.depth_func == m)) [
    | inl e ↦ rw e (
        settled c.shadow g (gl_effect (Gl.depth_func m) g) h
          (ap (λ q. record g { depth_func = q }) (ground (arith, h.depth_func))))
    | inr e ↦ rw e (grind arith, λ no. ground arith)
  ]

  pub depth_mask-Sound : (m : Bool) → Sound (Gl.depth_mask m) c g
  unfolding stub_call gl_effect gl_depth_mask
  depth_mask-Sound m = elim (Bool-cases (same_flag c.shadow.depth_mask m)) [
    | inl e ↦ rw e (
        settled c.shadow g (gl_effect (Gl.depth_mask m) g) h
          (ap (λ q. record g { depth_mask = q }) (ground (arith, h.depth_mask))))
    | inr e ↦ rw e (grind arith, λ no. ground arith)
  ]

  pub color_mask-Sound : (m : Mask) → Sound (Gl.color_mask m) c g
  unfolding stub_call gl_effect gl_color_mask
  color_mask-Sound m = elim (Bool-cases (same_mask c.shadow.color_mask m)) [
    | inl e ↦ rw e (
        settled c.shadow g (gl_effect (Gl.color_mask m) g) h (
          ap (λ q. record g { color_mask = q })
            (ground (arith, h.color_mask, same_mask-eq c.shadow.color_mask m e))))
    | inr e ↦ rw e (grind arith, λ no. ground arith)
  ]

  pub viewport-Sound : (b : Box) → Sound (Gl.viewport b) c g
  unfolding stub_call gl_effect gl_viewport
  viewport-Sound b = elim (Bool-cases (c.shadow.viewport_valid && same_box c.shadow.viewport b)) [
    | inl e ↦ rw e (
        settled c.shadow g (gl_effect (Gl.viewport b) g) h (
          ap (λ q. record g { viewport = q })
            (ground (
              arith,
              h.viewport (both_true-left c.shadow.viewport_valid (same_box c.shadow.viewport b) e),
              same_box-eq c.shadow.viewport b
                  (both_true-right c.shadow.viewport_valid (same_box c.shadow.viewport b) e),
            ))))
    | inr e ↦ rw e (grind arith, λ no. ground arith)
  ]

  pub scissor-Sound : (b : Box) → Sound (Gl.scissor b) c g
  unfolding stub_call gl_effect gl_scissor
  scissor-Sound b = elim (Bool-cases (c.shadow.scissor_valid && same_box c.shadow.scissor b)) [
    | inl e ↦ rw e (
        settled c.shadow g (gl_effect (Gl.scissor b) g) h (
          ap (λ q. record g { scissor = q })
            (ground (
              arith,
              h.scissor (both_true-left c.shadow.scissor_valid (same_box c.shadow.scissor b) e),
              same_box-eq c.shadow.scissor b
                  (both_true-right c.shadow.scissor_valid (same_box c.shadow.scissor b) e),
            ))))
    | inr e ↦ rw e (grind arith, λ no. ground arith)
  ]

  pub blend_equation-Sound : (m : ℕ) → Sound (Gl.blend_equation m) c g
  unfolding stub_call gl_effect gl_blend_equation
  blend_equation-Sound m =
      elim (Bool-cases (c.shadow.blend_eq_rgb == m && c.shadow.blend_eq_alpha == m)) [
        | inl e ↦
            let same : gl_effect (Gl.blend_equation m) g ≡ g =
              ground (arith, h.blend_eq_rgb, h.blend_eq_alpha) in
            rw e (settled c.shadow g (gl_effect (Gl.blend_equation m) g) h same)
        | inr e ↦ rw e (grind arith, λ no. ground arith)
      ]

  pub blend_equation_separate-Sound : (m n : ℕ) → Sound (Gl.blend_equation_separate m n) c g
  unfolding stub_call gl_effect gl_blend_equation_separate
  blend_equation_separate-Sound m n =
      elim (Bool-cases (c.shadow.blend_eq_rgb == m && c.shadow.blend_eq_alpha == n)) [
        | inl e ↦
            let same : gl_effect (Gl.blend_equation_separate m n) g ≡ g =
              ground (arith, h.blend_eq_rgb, h.blend_eq_alpha) in
            rw e (settled c.shadow g (gl_effect (Gl.blend_equation_separate m n) g) h same)
        | inr e ↦ rw e (grind arith, λ no. ground arith)
      ]

  pub blend_func-Sound : (m n : ℕ) → Sound (Gl.blend_func m n) c g
  unfolding stub_call gl_effect gl_blend_func
  blend_func-Sound m n =
      elim (Bool-cases (
        c.shadow.blend_src_rgb == m
        && c.shadow.blend_dst_rgb == n
        && c.shadow.blend_src_alpha == m
        && c.shadow.blend_dst_alpha == n)) [
          | inl e ↦
              let same : gl_effect (Gl.blend_func m n) g ≡ g =
                ground
                  (arith, h.blend_src_rgb, h.blend_dst_rgb, h.blend_src_alpha, h.blend_dst_alpha) in
              rw e (settled c.shadow g (gl_effect (Gl.blend_func m n) g) h same)
          | inr e ↦ rw e (grind arith, λ no. ground arith)
        ]

  pub blend_func_separate-Sound : (m n o p : ℕ) → Sound (Gl.blend_func_separate m n o p) c g
  unfolding stub_call gl_effect gl_blend_func_separate
  blend_func_separate-Sound m n o p =
      elim (Bool-cases (
        c.shadow.blend_src_rgb == m
        && c.shadow.blend_dst_rgb == n
        && c.shadow.blend_src_alpha == o
        && c.shadow.blend_dst_alpha == p)) [
          | inl e ↦
              let same : gl_effect (Gl.blend_func_separate m n o p) g ≡ g =
                ground
                  (arith, h.blend_src_rgb, h.blend_dst_rgb, h.blend_src_alpha, h.blend_dst_alpha) in
              rw e (settled c.shadow g (gl_effect (Gl.blend_func_separate m n o p) g) h same)
          | inr e ↦ rw e (grind arith, λ no. ground arith)
        ]
