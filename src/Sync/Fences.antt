-- ===== src/Sync/Fences.antt =====
-- proxy/protocol/gles3_2.c: the fences that the proxy keeps for the stub's handles, and the list of waits that
-- it has put off. `live` is which fences the driver has; what it answers is an argument of the handlers.
use webos_bridge_64to.Common.{
  ℕ, ◌/◌, ◌^◌, Bool, false, not, ◌||◌, List, [], ◌∷◌, ◌++◌, bit_and, ◌==◌, if◌then◌else◌, update,
  length,
}
use webos_bridge_64to.Sync.Handles.{sync_id_bits, sync_id_mask}

pub record SyncEntry : Type 0 where
  pub real : ℕ
  pub gen : ℕ

pub record DeferredSync : Type 0 where
  pub s : ℕ
  pub handle : ℕ
  pub owned : ℕ

pub record Fences : Type 0 where
  pub syncs : ℕ → SyncEntry
  pub deferred : List DeferredSync
  pub sync_done_gen : ℕ → ℕ
  pub live : ℕ → ℕ

abbrev pub max_deferred_syncs : ℕ
max_deferred_syncs = 8

-- `glDeleteSync`
unfoldable pub gl_delete_sync : ℕ → Fences → Fences
gl_delete_sync s f = record f { live = update f.live s 0 }

unfoldable pub lookup_sync : ℕ → Fences → ℕ
lookup_sync handle f =
    let id = bit_and handle sync_id_mask in
    let gen = handle / 2 ^ sync_id_bits in
    if id == 0 || ((f.syncs id).real == 0 || not ((f.syncs id).gen == gen))
    then 0
    else (f.syncs id).real

unfoldable pub sync_mark_done : ℕ → Fences → Fences
sync_mark_done handle f = record f {
  sync_done_gen = update f.sync_done_gen (bit_and handle sync_id_mask) (handle / 2 ^ sync_id_bits);
}

-- The loop of `proxy_resolve_deferred_waits`: the wait itself ends when the fence is signaled, or fails.
unfoldable pub resolve_each : List DeferredSync → Fences → Fences
resolve_each [] f = f
resolve_each (d ∷ ds) f =
    let waited = if d.owned == 0 then f else gl_delete_sync d.s f in
    resolve_each ds (sync_mark_done d.handle waited)

unfoldable pub proxy_resolve_deferred_waits : Fences → Fences
proxy_resolve_deferred_waits f = record (resolve_each (f.deferred) f) { deferred = [] }

unfoldable pub is_deferred : ℕ → List DeferredSync → Bool
is_deferred s [] = false
is_deferred s (d ∷ ds) = d.s == s || is_deferred s ds

unfoldable pub defer_push : ℕ → ℕ → Fences → Fences
defer_push s handle f =
    if is_deferred s (f.deferred)
    then f
    else (let room =
          if length f.deferred == max_deferred_syncs then proxy_resolve_deferred_waits f else f in
        record room {
          deferred = room.deferred ++ (record { s = s; handle = handle; owned = 0 } ∷ []);
        })

-- `owned = 1` for the first entry with this fence.
unfoldable pub own : ℕ → List DeferredSync → List DeferredSync
own s [] = []
own s (d ∷ ds) = let rest = own s ds in if d.s == s then record d { owned = 1 } ∷ ds else d ∷ rest

unfoldable pub defer_adopt_delete : ℕ → Fences → Bool × Fences
defer_adopt_delete s f = (is_deferred s (f.deferred), record f { deferred = own s (f.deferred) })

-- `if (!defer_adopt_delete(s)) glDeleteSync(s)`
unfoldable pub drop_fence : ℕ → Fences → Fences
drop_fence s f =
    let (adopted, f') = defer_adopt_delete s f in if adopted then f' else gl_delete_sync s f'

-- `s` is the fence that the driver has made, 0 if it failed.
unfoldable pub h_gl_fence_sync : ℕ → ℕ → Fences → Fences
h_gl_fence_sync s handle f =
    let id = bit_and handle sync_id_mask in
    if id == 0 || s == 0
    then f
    else (let made = record f { live = update f.live s 1 } in
        let cleared = if (f.syncs id).real == 0 then made else drop_fence (f.syncs id).real made in
        record cleared {
          syncs = update cleared.syncs id (record { real = s; gen = handle / 2 ^ sync_id_bits });
        })

abbrev pub gl_already_signaled : ℕ
gl_already_signaled = 0x911a

abbrev pub gl_condition_satisfied : ℕ
gl_condition_satisfied = 0x911c

abbrev pub gl_wait_failed : ℕ
gl_wait_failed = 0x911d

-- `wait` is `glClientWaitSync`, of a fence, flags and a timeout.
unfoldable pub h_gl_client_wait_sync :
    (ℕ → ℕ → ℕ → ℕ) → (handle flags timeout mode : ℕ) → Fences → ℕ × Fences
h_gl_client_wait_sync wait handle flags timeout mode f =
    let s = lookup_sync handle f in
    if s == 0
    then (gl_wait_failed, f)
    else if mode == 2
    then (gl_condition_satisfied, defer_push s handle f)
    else (let res = if mode == 1 then wait s 1 0 else wait s flags timeout in
        (
          res,
          if res == gl_already_signaled || res == gl_condition_satisfied
              then sync_mark_done handle f
              else f,
        ))

unfoldable pub h_gl_delete_sync : ℕ → Fences → Fences
h_gl_delete_sync handle f =
    let s = lookup_sync handle f in
    if s == 0
    then f
    else (let dropped = drop_fence s f in
        record dropped {
          syncs = update dropped.syncs (bit_and handle sync_id_mask) (record { real = 0; gen = 0 });
        })
