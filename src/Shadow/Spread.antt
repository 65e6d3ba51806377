-- ===== src/Shadow/Spread.antt =====
-- What a delete does to the shadows of all contexts.
use mathlib.Core.Path.{fun_ext}
use webos_bridge_64to.Common.{
  ℕ, ◌<◌, ◌≡◌, ◌≢◌, ◌⊎◌, refl, ap, ◌∙◌, inl, inr, List, [], ◌∷◌, arith, ◌==◌, Bool-cases, ltb,
  ltb→lt, ==_iff,
}
use webos_bridge_64to.Shadow.State.{StubShadowState, shadow_state_init}
use webos_bridge_64to.Shadow.Deletes.{
  forget, invalidate_all, shadow_invalidate_texture, shadow_invalidate_fbo, shadow_invalidate_vao,
  shadow_invalidate_sampler,
}
use webos_bridge_64to.Shadow.Gl.{GlState}
use webos_bridge_64to.Shadow.Agree.{Agrees, tex_slot-place}
use webos_bridge_64to.Shadow.Switch.{NoneOf}

-- The invalidation of names, as far as the contexts are concerned that do not delete them.
pub record IsSpread (inv : ℕ → StubShadowState → StubShadowState) : Type 0 where
  pub stays_initialised : (n : ℕ) (s : StubShadowState) → (inv n s).initialised ≡ s.initialised
  pub at_start : (n : ℕ) → inv n shadow_state_init ≡ shadow_state_init

pub texture-IsSpread : IsSpread shadow_invalidate_texture
unfolding shadow_invalidate_texture forget shadow_state_init
texture-IsSpread = record {
  stays_initialised = λ n s. ground arith;
  at_start = λ n. elim (Bool-cases (n == 0)) [
    | inl e ↦ rw e refl
    | inr e ↦ rw e (
        ap (λ b. record shadow_state_init { bound_texture = b })
          (fun_ext λ k. fun_ext λ u. ground arith))
  ];
}

pub fbo-IsSpread : IsSpread shadow_invalidate_fbo
unfolding shadow_invalidate_fbo forget shadow_state_init
fbo-IsSpread = record { stays_initialised = λ n s. ground arith; at_start = λ n. ground arith }

pub vao-IsSpread : IsSpread shadow_invalidate_vao
unfolding shadow_invalidate_vao forget shadow_state_init
vao-IsSpread = record { stays_initialised = λ n s. ground arith; at_start = λ n. ground arith }

pub sampler-IsSpread : IsSpread shadow_invalidate_sampler
unfolding shadow_invalidate_sampler forget shadow_state_init
sampler-IsSpread = record {
  stays_initialised = λ n s. ground arith;
  at_start = λ n. elim (Bool-cases (n == 0)) [
    | inl e ↦ rw e refl
    | inr e ↦ rw e (ap (λ b. record shadow_state_init { sampler = b }) (fun_ext λ u. ground arith))
  ];
}

pub all-IsSpread :
    {inv : ℕ → StubShadowState → StubShadowState}
    → IsSpread inv
    → (ns : List ℕ)
    → ((s : StubShadowState) → (invalidate_all inv ns s).initialised ≡ s.initialised)
      × (invalidate_all inv ns shadow_state_init ≡ shadow_state_init)
unfolding invalidate_all
all-IsSpread spread [] = (λ s. refl, refl)
all-IsSpread {inv} spread (n ∷ ns) =
    let (kept, still) = all-IsSpread spread ns in
    (
      λ s. kept (inv n s) ∙ spread.stays_initialised n s,
      ap (invalidate_all inv ns) (spread.at_start n) ∙ still,
    )

-- A texture that is deleted elsewhere is only forgotten.
texture-elsewhere :
    (n : ℕ) (s : StubShadowState) (g : GlState)
    → Agrees s g
    → Agrees (shadow_invalidate_texture n s) g
unfolding shadow_invalidate_texture forget
texture-elsewhere n s g h = elim (Bool-cases (n == 0)) [
  | inl e ↦ rw e h
  | inr e ↦ rw e (grind (arith, tex_slot-place))
]

pub textures-elsewhere :
    (ns : List ℕ) (s : StubShadowState) (g : GlState)
    → Agrees s g
    → Agrees (invalidate_all shadow_invalidate_texture ns s) g
unfolding invalidate_all
textures-elsewhere [] s g h = h
textures-elsewhere (n ∷ ns) s g h =
    textures-elsewhere ns (shadow_invalidate_texture n s) g (texture-elsewhere n s g h)

-- A name that is not bound changes nothing.
pub none-elsewhere :
    (inv : ℕ → StubShadowState → StubShadowState) (IsBound : ℕ → Type 0) (s : StubShadowState)
    → ((n : ℕ) → (n ≢ 0 → ¬ IsBound n) → inv n s ≡ s)
    → (ns : List ℕ) → NoneOf IsBound ns
    → invalidate_all inv ns s ≡ s
unfolding invalidate_all
none-elsewhere inv IsBound s one [] free = refl
none-elsewhere inv IsBound s one (n ∷ ns) free =
    let (this, others) = free in
    ap (invalidate_all inv ns) (one n this) ∙ none-elsewhere inv IsBound s one ns others

pub fbo-elsewhere :
    (s : StubShadowState) (n : ℕ)
    → (n ≢ 0 → ¬ ((s.draw_fb ≡ n) ⊎ (s.read_fb ≡ n)))
    → shadow_invalidate_fbo n s ≡ s
unfolding shadow_invalidate_fbo forget
fbo-elsewhere s n free = ground arith

pub vao-elsewhere :
    (s : StubShadowState) (n : ℕ) → (n ≢ 0 → ¬ (s.vao ≡ n)) → shadow_invalidate_vao n s ≡ s
unfolding shadow_invalidate_vao forget
vao-elsewhere s n free = ground arith

pub sampler-elsewhere :
    (s : StubShadowState) (n : ℕ)
    → (n ≢ 0 → ¬ ((u : ℕ) × ((u < 32) × (s.sampler u ≡ n))))
    → shadow_invalidate_sampler n s ≡ s
unfolding shadow_invalidate_sampler forget
sampler-elsewhere s n free = elim (Bool-cases (n == 0)) [
  | inl e ↦ rw e refl
  | inr e ↦ rw e (
      ap (λ b. record s { sampler = b })
        (fun_ext λ u. elim (Bool-cases (ltb u 32)) [
          | inl small ↦ elim (Bool-cases (s.sampler u == n)) [
            | inl here ↦
                absurd
                  (free (ground arith) (u, (ltb→lt u 32 small, (==_iff (s.sampler u) n).0 here)))
            | inr there ↦ rw (small, there) refl
          ]
          | inr big ↦ rw big refl
        ]))
]
