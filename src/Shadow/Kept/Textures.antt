-- ===== src/Shadow/Kept/Textures.antt =====
-- `glBindTexture`: the slot of a target and a unit.
use webos_bridge_64to.Common.{
  ℕ, ◌+◌, ◌^◌, ◌<◌, ◌≡◌, ◌≢◌, sym, ap, inl, inr, some, none, arith, ◌==◌, Bool-cases, Option-cases,
  update, update_same, ℕ_discrete,
}
use webos_bridge_64to.Shadow.State.{
  StubContext, shadow_tex_slot, shadow_tex_invalid, tex_array, gl_texture0,
}
use webos_bridge_64to.Shadow.Calls.{store_texture, gl_bind_texture}
use webos_bridge_64to.Shadow.Gl
use webos_bridge_64to.Shadow.Gl.{GlState, gl_effect, stub_call}
use webos_bridge_64to.Shadow.Agree.{Agrees, tex_slot-place, tex_array-injective}
use webos_bridge_64to.Shadow.Kept.{Sound, settled}

module _ (c : StubContext) (g : GlState) (h : Agrees c.shadow g) where
  -- A target without a slot is not one of a slot.
  record_textures :
      (t target : ℕ)
      → shadow_tex_slot target c.shadow.active_texture ≡ none
      → Agrees c.shadow (record g {
        texture = update g.texture target (update (g.texture target) g.active_texture t);
      })
  unfolding ℕ_discrete
  record_textures t target outside =
      let other : (target' unit k i : ℕ)
          → unit < 2 ^ 32
          → shadow_tex_slot target' unit ≡ some (k, i)
          → c.shadow.bound_texture k i ≢ shadow_tex_invalid
          → update g.texture target (update (g.texture target) g.active_texture t) target' unit
            ≡ c.shadow.bound_texture k i =
        λ target' unit k i small slot live.
          ground (arith, h.texture target' unit k i small slot live, h.active_texture) in
      grind arith

  -- Two slots are the same only for the same target and unit.
  rewritten_textures :
      (t target k i : ℕ)
      → shadow_tex_slot target c.shadow.active_texture ≡ some (k, i)
      → Agrees
          (record c.shadow {
            bound_texture = update c.shadow.bound_texture k (update (c.shadow.bound_texture k) i t);
          })
          (record g {
            texture = update g.texture target (update (g.texture target) g.active_texture t);
          })
  unfolding ℕ_discrete
  rewritten_textures t target k i found =
      let active : c.shadow.active_texture < 2 ^ 32 = ground (arith, h.unit, h.active_texture) in
      let place : (tex_array target ≡ some k)
          × ((i < 32) × (c.shadow.active_texture ≡ gl_texture0 + i)) =
        tex_slot-place target c.shadow.active_texture k i active found in
      let written : (target' unit k' i' : ℕ)
          → unit < 2 ^ 32
          → shadow_tex_slot target' unit ≡ some (k', i')
          → update c.shadow.bound_texture k (update (c.shadow.bound_texture k) i t) k' i'
            ≢ shadow_tex_invalid
          → update g.texture target (update (g.texture target) g.active_texture t) target' unit
            ≡ update c.shadow.bound_texture k (update (c.shadow.bound_texture k) i t) k' i' =
        λ target' unit k' i' small slot live. ground (
          arith,
          h.texture target' unit k' i' small slot,
          h.active_texture,
          place,
          tex_slot-place target' unit k' i' small slot,
          tex_array-injective target target' k',
        ) in
      grind arith

  pub bind_texture-Sound :
      (target t : ℕ) → t ≢ shadow_tex_invalid → Sound (Gl.bind_texture target t) c g
  unfolding stub_call gl_effect gl_bind_texture store_texture ℕ_discrete
  bind_texture-Sound target t real =
      elim (Option-cases (shadow_tex_slot target c.shadow.active_texture)) [
        | inl outside ↦ rw outside (record_textures t target outside, λ no. ground arith)
        | inr (slot, found) ↦
            let (k, i) = slot in
            elim (Bool-cases (c.shadow.bound_texture k i == t)) [
              | inl e ↦
                  let here : g.texture target g.active_texture ≡ t = ground (
                    arith,
                    h.texture target g.active_texture k i h.unit (rw h.active_texture found),
                    h.active_texture,
                  ) in
                  rw (found, e)
                    (settled c.shadow g (gl_effect (Gl.bind_texture target t) g) h (
                      ap (λ q. record g { texture = q })
                        (update_same g.texture target (update (g.texture target) g.active_texture t)
                          (sym (update_same (g.texture target) g.active_texture t here)))))
              | inr e ↦ rw (found, e) (rewritten_textures t target k i found, λ no. ground arith)
            ]
      ]
