-- ===== src/Buffers/Tracked.antt =====
-- Programs whose bindings the stub follows.
use webos_bridge_64to.Common.{ℕ, ◌<◌, ◌≡◌, ◌≢◌, false, List, [], ◌∷◌, some}
use webos_bridge_64to.Buffers.State.{Bindings, buffer_slot}
use webos_bridge_64to.Buffers.Spec.{
  GlBuffers, Op, bind_array, bind_base, bind_buffer, delete_arrays, delete_buffers, documented,
  drop_buffers, gen_arrays, stub_op,
}

pub record Tracks (c : Bindings) (g : GlBuffers) : Type 0 where
  pub binding : (t i : ℕ) → buffer_slot t ≡ some i → g.binding t ≡ c.binding i
  pub vao : g.vao ≡ c.current_vao
  pub shadow : c.vao ≡ c.current_vao
  pub small : c.current_vao < 1024
  pub ebo : (v : ℕ) → g.ebo v ≡ c.ebo v

-- No vertex array but the one that is bound has one of the buffers.
abbrev pub Unattached : List ℕ → GlBuffers → Type 0
Unattached [] g = Unit
Unattached (b ∷ more) g =
    ((v : ℕ) → v ≢ g.vao → b ≢ 0 → g.ebo v ≢ b) × Unattached more (drop_buffers (b ∷ []) g)

abbrev pub Unbound : List ℕ → GlBuffers → Type 0
Unbound [] g = Unit
Unbound (v ∷ more) g = (v ≢ 0 → g.vao ≢ v) × Unbound more g

-- What the stub follows: vertex arrays are below MAX_VAOS, an indexed binding is of the buffer that is
-- bound to the target, a buffer that is deleted is in no other vertex array, and a vertex array that
-- is deleted is not bound.
abbrev pub IsFollowed : Op → GlBuffers → Type 0
IsFollowed (bind_buffer t b) g = Unit
IsFollowed (bind_array v) g = v < 1024
IsFollowed (bind_base t i b) g = g.binding t ≡ b
IsFollowed (delete_buffers bs) g = Unattached bs g
IsFollowed (gen_arrays ids) g = Unit
IsFollowed (delete_arrays vs) g = Unbound vs g

abbrev pub AreFollowed : List Op → GlBuffers → Type 0
AreFollowed [] g = Unit
AreFollowed (op ∷ more) g = IsFollowed op g × AreFollowed more (documented op g)

-- One call: the bindings stay tracked, and a call that is not sent has no effect.
abbrev IsRight : Op → Bindings → GlBuffers → Type 0
IsRight op c g =
    let o = stub_op op c in Tracks o.1 (documented op g) × (o.0 ≡ false → documented op g ≡ g)
