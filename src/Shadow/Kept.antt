-- ===== src/Shadow/Kept.antt =====
-- What it means for a call of the stub to be right about the driver.
pub mod Values
pub mod Bindings
pub mod Textures
pub mod Drops
use mathlib.Core.Path.{subst}
use webos_bridge_64to.Common.{◌≡◌, refl, sym, true, false}
use webos_bridge_64to.Shadow.State.{StubShadowState, StubContext}
use webos_bridge_64to.Shadow.Gl.{GlState, Call, gl_effect, stub_call, is_setter}
use webos_bridge_64to.Shadow.Agree.{Agrees}

-- The context after the call agrees with the driver after it, and a call that is left out is a setter
-- without effect.
abbrev pub Sound : Call → StubContext → GlState → Type 0
Sound call c g =
    let o = stub_call call c in
    Agrees o.1.shadow (gl_effect call g)
    × (o.0 ≡ false → (is_setter call ≡ true) × (gl_effect call g ≡ g))

-- An early return is right where the call would set what is set.
pub settled :
    (s : StubShadowState) (g g' : GlState)
    → Agrees s g
    → g' ≡ g
    → Agrees s g' × (false ≡ false → (true ≡ true) × (g' ≡ g))
settled s g g' h same = (subst (λ x. Agrees s x) (sym same) h, λ no. (refl, same))
