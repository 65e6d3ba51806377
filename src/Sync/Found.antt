-- ===== src/Sync/Found.antt =====
-- Which fence a handle stands for in proxy/protocol/gles3_2.c, and what the stub learns of it.
use webos_bridge_64to.Common.{
  ℕ, true, false, ◌≡◌, ◌≢◌, ◌⊎◌, not, ◌||◌, ◌==◌, if◌then◌else◌, update, arith, refl, sym, ◌∙◌,
}
use webos_bridge_64to.Common.Bits.{bit_and_mask}
use webos_bridge_64to.Sync.Handles.{bridge_sync_done}
use webos_bridge_64to.Sync.Fresh.{id_of, gen_of}
use webos_bridge_64to.Sync.Fences.{
  SyncEntry, Fences, gl_delete_sync, lookup_sync, sync_mark_done, defer_adopt_delete, drop_fence,
  h_gl_fence_sync, h_gl_delete_sync, h_gl_client_wait_sync, gl_already_signaled,
  gl_condition_satisfied,
}

-- Handles with one id differ in their generation.
gens_differ : (h k : ℕ) → h ≢ k → id_of h ≡ id_of k → gen_of h ≢ gen_of k
gens_differ h k ne e same = omega (arith, ne, e, same, bit_and_mask 8 h, bit_and_mask 8 k)

drop_fence-syncs : (s : ℕ) (f : Fences) (i : ℕ) → (drop_fence s f).syncs i ≡ f.syncs i
unfolding drop_fence defer_adopt_delete gl_delete_sync
drop_fence-syncs s f i = ground arith

-- The entries after `h_glFenceSync` and after `h_glDeleteSync`.
fence_entries :
    (s handle : ℕ) (f : Fences) (i : ℕ)
    → s ≢ 0
    → id_of handle ≢ 0
    → (h_gl_fence_sync s handle f).syncs i
      ≡ update f.syncs (id_of handle) (record { real = s; gen = gen_of handle }) i
unfolding h_gl_fence_sync
fence_entries s handle f i made id = ground (
  arith,
  drop_fence-syncs (f.syncs (id_of handle)).real (record f { live = update f.live s 1 }) i,
)

deleted_entries :
    (handle : ℕ) (f : Fences) (i : ℕ)
    → lookup_sync handle f ≢ 0
    → (h_gl_delete_sync handle f).syncs i
      ≡ update f.syncs (id_of handle) (record { real = 0; gen = 0 }) i
unfolding h_gl_delete_sync
deleted_entries handle f i found = ground (arith, drop_fence-syncs (lookup_sync handle f) f i)

-- What a handle stands for depends on the entry of its id.
lookup_entry :
    (k : ℕ) (f : Fences) (e : SyncEntry)
    → f.syncs (id_of k) ≡ e
    → lookup_sync k f
      ≡ (if id_of k == 0 || (e.real == 0 || not (e.gen == gen_of k)) then 0 else e.real)
unfolding lookup_sync
lookup_entry k f e at = rw at refl

-- After `h_glFenceSync` with a fence of the driver and a handle whose id is not 0: the handle stands for that
-- fence, every other handle with the same id stands for none, and handles with another id for what they stood.
pub fence_is_found :
    (s handle k : ℕ) (f : Fences)
    → s ≢ 0
    → id_of handle ≢ 0
    → let t = h_gl_fence_sync s handle f in
      (lookup_sync handle t ≡ s)
      × (k ≢ handle → id_of k ≡ id_of handle → lookup_sync k t ≡ 0)
      × (id_of k ≢ id_of handle → lookup_sync k t ≡ lookup_sync k f)
fence_is_found s handle k f made id = (
  lookup_entry handle (h_gl_fence_sync s handle f) (record { real = s; gen = gen_of handle })
        (fence_entries s handle f (id_of handle) made id ∙ ground arith)
      ∙ ground (arith, made, id),
  λ other same.
      lookup_entry k (h_gl_fence_sync s handle f) (record { real = s; gen = gen_of handle })
        (fence_entries s handle f (id_of k) made id ∙ ground (arith, same))
      ∙ ground (arith, gens_differ k handle other same),
  λ apart.
      lookup_entry k (h_gl_fence_sync s handle f) (f.syncs (id_of k))
        (fence_entries s handle f (id_of k) made id ∙ ground (arith, apart))
      ∙ sym (lookup_entry k f (f.syncs (id_of k)) refl),
)

-- After `h_glDeleteSync` with a handle that stands for a fence: it stands for none, and handles with another id
-- for what they stood.
deleted_is_gone :
    (handle k : ℕ) (f : Fences)
    → lookup_sync handle f ≢ 0
    → let t = h_gl_delete_sync handle f in
      (lookup_sync handle t ≡ 0) × (id_of k ≢ id_of handle → lookup_sync k t ≡ lookup_sync k f)
deleted_is_gone handle k f found = (
  lookup_entry handle (h_gl_delete_sync handle f) (record { real = 0; gen = 0 })
        (deleted_entries handle f (id_of handle) found ∙ ground arith)
      ∙ ground arith,
  λ apart.
      lookup_entry k (h_gl_delete_sync handle f) (f.syncs (id_of k))
        (deleted_entries handle f (id_of k) found ∙ ground (arith, apart))
      ∙ sym (lookup_entry k f (f.syncs (id_of k)) refl),
)

found_id : (handle : ℕ) (f : Fences) → lookup_sync handle f ≢ 0 → id_of handle ≢ 0
unfolding lookup_sync
found_id handle f found = ground (arith, found)

done_entries :
    (wait : ℕ → ℕ → ℕ → ℕ) (handle flags timeout mode : ℕ) (f : Fences) (i : ℕ)
    → lookup_sync handle f ≢ 0
    → mode ≢ 2
    → let (res, t) = h_gl_client_wait_sync wait handle flags timeout mode f in
      ((res ≡ gl_already_signaled) ⊎ (res ≡ gl_condition_satisfied))
      → t.sync_done_gen i ≡ update f.sync_done_gen (id_of handle) (gen_of handle) i
unfolding h_gl_client_wait_sync sync_mark_done
done_entries wait handle flags timeout mode f i found now answered =
    ground (arith, found, now, answered)

done_entry :
    (k : ℕ) (gens : ℕ → ℕ) (g : ℕ)
    → gens (id_of k) ≡ g
    → bridge_sync_done k true gens
      ≡ (if id_of k == 0 || (gen_of k == 0 || false) then false else g == gen_of k)
unfolding bridge_sync_done
done_entry k gens g at = rw at refl

-- After `h_glClientWaitSync` has answered a wait or a poll of a handle with GL_ALREADY_SIGNALED or
-- GL_CONDITION_SATISFIED, `bridge_sync_done` in the stub holds of that handle, if its generation is not 0, and
-- of no other handle with the same id.
pub signaled_is_done :
    (wait : ℕ → ℕ → ℕ → ℕ) (handle flags timeout mode k : ℕ) (f : Fences)
    → lookup_sync handle f ≢ 0
    → gen_of handle ≢ 0
    → mode ≢ 2
    → let (res, t) = h_gl_client_wait_sync wait handle flags timeout mode f in
      ((res ≡ gl_already_signaled) ⊎ (res ≡ gl_condition_satisfied))
      → (bridge_sync_done handle true t.sync_done_gen ≡ true)
        × (k ≢ handle → id_of k ≡ id_of handle → bridge_sync_done k true t.sync_done_gen ≡ false)
signaled_is_done wait handle flags timeout mode k f found gen now answered =
    let t = (h_gl_client_wait_sync wait handle flags timeout mode f).1 in
    let id = found_id handle f found in
    let mine = done_entries wait handle flags timeout mode f (id_of handle) found now answered in
    let other = done_entries wait handle flags timeout mode f (id_of k) found now answered in
    (
      done_entry handle (t.sync_done_gen) (gen_of handle) (mine ∙ ground arith)
          ∙ ground (arith, id, gen),
      λ ne same.
          done_entry k (t.sync_done_gen) (gen_of handle) (other ∙ ground (arith, same))
          ∙ ground (arith, gens_differ k handle ne same),
    )
