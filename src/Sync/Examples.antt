-- ===== src/Sync/Examples.antt =====
-- Tests of the handles, and the theorems at concrete inputs.
use webos_bridge_64to.Common.{ℕ, true, ◌≤◌, ◌≡◌, ◌≢◌, refl, false, [], inl, arith, ℕ_discrete}
use webos_bridge_64to.Sync.Handles.{
  candidate, next_gen, handle_of, take_id, alloc_from, bridge_sync_alloc, bridge_sync_free,
  bridge_sync_done, no_syncs,
}
use webos_bridge_64to.Sync.Fences.{
  Fences, gl_delete_sync, lookup_sync, sync_mark_done, is_deferred, own, defer_adopt_delete,
  drop_fence, h_gl_fence_sync, h_gl_client_wait_sync,
}
use webos_bridge_64to.Sync.Found.{fence_is_found, signaled_is_done}
use webos_bridge_64to.Sync.Fresh.{IsValid, id_of, gen_of, alloc_is_fresh}

code : Unit {0}
unfolding ℕ_discrete candidate next_gen handle_of take_id alloc_from bridge_sync_alloc
    bridge_sync_free bridge_sync_done
code = tt

fences : Unit {0}
unfolding ℕ_discrete lookup_sync h_gl_fence_sync drop_fence gl_delete_sync defer_adopt_delete
    is_deferred own h_gl_client_wait_sync sync_mark_done
fences = tt

-- The first two handles, and the first one again after it is freed: the id is not reused at once.
first_handle : (bridge_sync_alloc no_syncs).0 ≡ 257
unfolding code
first_handle = refl

after_free : (bridge_sync_alloc (bridge_sync_free 257 (bridge_sync_alloc no_syncs).1)).0 ≡ 514
unfolding code
after_free = refl

done_of_first : bridge_sync_done 257 true (λ id. 1) ≡ true
unfolding code
done_of_first = refl

no_syncs-IsValid : IsValid no_syncs
no_syncs-IsValid = record {
  next_low = omega arith;
  next_high = omega arith;
  gen_small = omega arith;
}

alloc_is_fresh_example :
    (1 ≤ id_of 257)
    × (id_of 257 ≤ 255)
    × (no_syncs.used (id_of 257) ≡ 0)
    × ((bridge_sync_alloc no_syncs).1.used (id_of 257) ≡ 1)
    × (gen_of 257 ≡ next_gen no_syncs.gen)
    × ((i : ℕ) → i ≢ id_of 257 → (bridge_sync_alloc no_syncs).1.used i ≡ no_syncs.used i)
unfolding code
alloc_is_fresh_example = alloc_is_fresh no_syncs no_syncs-IsValid (omega arith)

abbrev no_fences : Fences
no_fences = record {
  syncs = λ i. record { real = 0; gen = 0 };
  deferred = [];
  sync_done_gen = λ i. 0;
  live = λ i. 0;
}

-- The same id, the next generation.
abbrev other_handle : ℕ
other_handle = 513

abbrev one_fence : Fences
one_fence = h_gl_fence_sync 900 257 no_fences

fence_is_found_example :
    (lookup_sync 257 one_fence ≡ 900)
    × (other_handle ≢ 257 → id_of 513 ≡ id_of 257 → lookup_sync 513 one_fence ≡ 0)
    × (id_of 513 ≢ id_of 257 → lookup_sync 513 one_fence ≡ lookup_sync 513 no_fences)
fence_is_found_example = fence_is_found 900 257 513 no_fences (omega arith) (omega arith)

abbrev signaled : ℕ → ℕ → ℕ → ℕ
signaled s flags timeout = 0x911a

signaled_is_done_example :
    (bridge_sync_done 257 true
        (h_gl_client_wait_sync signaled 257 0 1000 0 one_fence).1.sync_done_gen
      ≡ true)
    × (other_handle ≢ 257
        → id_of 513 ≡ id_of 257
        → bridge_sync_done 513 true
            (h_gl_client_wait_sync signaled 257 0 1000 0 one_fence).1.sync_done_gen
          ≡ false)
unfolding fences
signaled_is_done_example =
    signaled_is_done signaled 257 0 1000 0 513 one_fence (omega arith) (omega arith) (omega arith)
      (inl refl)
