-- ===== src/Ring/Frames.antt =====
-- stub/bridge_core.c: which swaps have been published, and what `g_pending_swap_seq` says of them when
-- `async_swap` is set.
use webos_bridge_64to.Common.{ℕ, ◌≤◌, ◌<◌, ◌≡◌, ◌⊎◌, Bool, ◌||◌, ◌&&◌, ◌==◌, true, false, arith}
use webos_bridge_64to.Ring.Stub.{
  Send, void, call, swap, StubPc, published, posting, checking, reading, finishing,
  ring_reserve_slot, store_needs, store_published, after_publish, finish,
}
use webos_bridge_64to.Ring.Proxy.{run_handler, release_data, store_completed, after_complete}
use webos_bridge_64to.Ring.System.{
  System, StubStep, ProxyStep, by_stub, by_proxy, Reach, start, later, begin, reserved, fill, send,
  publish, see_awake, see_asleep, post, see_done, see_undone, woken, return, see_work, see_none,
  arm, see_work_armed, see_none_armed, wake, disarm, dispatch, release, complete, respond,
}
use webos_bridge_64to.Ring.Counts.{Counts}
use webos_bridge_64to.Ring.Contents.{SlotsDistinct}
use webos_bridge_64to.Ring.Invariant.{Reach-Inv}

abbrev is_swap : Send → Bool
is_swap swap = true
is_swap _ = false

-- The step publishes a swap with the sequence number q.
unfoldable pub publishes_swap :
    {n : ℕ} {async : Bool} {s t : System} → ℕ → StubStep n async s t → Bool
publishes_swap {s = s} q (publish {k = k} e) = is_swap k && q == s.stub.cur_seq
publishes_swap q _ = false

-- `bridge_send_swap` has published the command with the sequence number q in the run.
unfoldable pub was_swap : {n : ℕ} {async : Bool} {s : System} → ℕ → Reach n async s → Bool
was_swap q start = false
was_swap q (later r (by_stub st)) = publishes_swap q st || was_swap q r
was_swap q (later r (by_proxy st)) = was_swap q r

-- Between the store of `published_seq` for a swap and the return.
abbrev InSwap : StubPc → Type 0
InSwap (published swap) = Unit
InSwap (posting swap) = Unit
InSwap (checking seq swap) = Unit
InSwap (reading seq swap) = Unit
InSwap (finishing swap) = Unit
InSwap _ = ⊥

-- A published swap is not after the pending one, or is the one that is being sent.
pub record Frames (q : ℕ) (was : Bool) (s : System) : Type 0 where
  pub known :
      was ≡ true
      → ((s.stub.have_pending_swap ≡ true) × (q ≤ s.stub.pending_swap_seq))
        ⊎ ((q ≡ s.stub.cur_seq) × InSwap s.stub.pc)
  pub pending : s.stub.have_pending_swap ≡ true → s.stub.pending_swap_seq < s.ring.published_seq

module _ {n : ℕ} (q : ℕ) {was : Bool} where
  StubStep-Frames :
      {s t : System} (st : StubStep n true s t)
      → Counts n s
      → Frames q was s
      → Frames q (publishes_swap q st || was) t
  unfolding publishes_swap ring_reserve_slot store_needs store_published after_publish finish
  StubStep-Frames (begin e) counts inv = grind arith
  StubStep-Frames (reserved pid ctx head e low r) counts inv = grind arith
  StubStep-Frames (fill c e) counts inv = grind arith
  StubStep-Frames (send k e) counts inv = grind arith
  StubStep-Frames (publish {k = void} e) counts inv = grind arith
  StubStep-Frames (publish {k = call} e) counts inv = grind arith
  StubStep-Frames (publish {k = swap} e) counts inv = grind arith
  StubStep-Frames (see_awake e w) counts inv = grind arith
  StubStep-Frames (see_asleep e w) counts inv = grind arith
  StubStep-Frames (post e) counts inv = grind arith
  StubStep-Frames (see_done e h) counts inv = grind arith
  StubStep-Frames (see_undone e h) counts inv = grind arith
  StubStep-Frames (woken e h) counts inv = grind arith
  StubStep-Frames (return {k = void} e) counts inv = grind arith
  StubStep-Frames (return {k = call} e) counts inv = grind arith
  StubStep-Frames (return {k = swap} e) counts inv = grind arith

  ProxyStep-Frames : {s t : System} → ProxyStep n true s t → Frames q was s → Frames q was t
  unfolding run_handler release_data store_completed after_complete
  ProxyStep-Frames (see_work e h) inv = grind arith
  ProxyStep-Frames (see_none e h) inv = grind arith
  ProxyStep-Frames (arm e) inv = grind arith
  ProxyStep-Frames (see_work_armed e h) inv = grind arith
  ProxyStep-Frames (see_none_armed e h) inv = grind arith
  ProxyStep-Frames (wake e h) inv = grind arith
  ProxyStep-Frames (disarm e) inv = grind arith
  ProxyStep-Frames (dispatch reply e) inv = grind arith
  ProxyStep-Frames (release e) inv = grind arith
  ProxyStep-Frames (complete e) inv = grind arith
  ProxyStep-Frames (respond e) inv = grind arith

pub Reach-Frames :
    {n : ℕ} {s : System} (q : ℕ)
    → SlotsDistinct n
    → (run : Reach n true s) → Frames q (was_swap q run) s
unfolding was_swap
Reach-Frames q distinct start = grind arith
Reach-Frames q distinct (later r (by_stub st)) =
    StubStep-Frames q st (Reach-Inv distinct r).counts (Reach-Frames q distinct r)
Reach-Frames q distinct (later r (by_proxy st)) = ProxyStep-Frames q st (Reach-Frames q distinct r)
