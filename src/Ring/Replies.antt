-- ===== src/Ring/Replies.antt =====
-- What the caller gets: the reply to its own command, and a bound on the frames in flight.
use webos_bridge_64to.Common.{ℕ, ◌+◌, ◌<◌, ◌≡◌, Bool, true, arith, ◌≢◌, inl, inr}
use webos_bridge_64to.Config.Slots.{slots_of_setting}
use webos_bridge_64to.Ring.Shared.{slot_index}
use webos_bridge_64to.Ring.Stub.{Send, swap, finishing}
use webos_bridge_64to.Ring.System.{System, Reach}
use webos_bridge_64to.Ring.Contents.{Holds}
use webos_bridge_64to.Ring.Returns.{waits_for_own}
use webos_bridge_64to.Ring.Frames.{Reach-Frames, was_swap}
use webos_bridge_64to.Ring.Invariant.{Inv, Reach-Inv, slots_distinct}

module _ (setting : ℕ) {async : Bool} {s : System}
    (run : Reach (slots_of_setting setting) async s) where
  all : Inv (slots_of_setting setting) async s
  all = Reach-Inv (slots_distinct setting) run

  -- When `bridge_send_call`, or `bridge_send_swap` without `async_swap`, is about to return, its
  -- slot and the result buffer hold what the handler of this very command wrote back.
  pub call_returns_own_reply :
      (k : Send)
      → s.stub.pc ≡ finishing k
      → waits_for_own async k ≡ true
      → Holds
          (s.ring)
          (s.ring.slots (slot_index (slots_of_setting setting) s.stub.cur_seq))
          (s.history.replies s.stub.cur_seq)
  call_returns_own_reply k e own =
      let counts = all.counts in
      let current : s.stub.cur_seq + 1 ≡ s.ring.published_seq =
        ground (arith, counts.current, counts.next) in
      let done : s.stub.cur_seq < s.ring.completed_seq = ground (arith, all.returns) in
      all.contents.answered s.stub.cur_seq current (ground arith) (omega (arith, done))

module _ (setting : ℕ) {s : System} (run : Reach (slots_of_setting setting) true s) where
  all_async : Inv (slots_of_setting setting) true s
  all_async = Reach-Inv (slots_distinct setting) run

  -- With `async_swap`, when `bridge_send_swap` returns, each swap that was published before its own in the run is
  -- completed: at most one swap, its own, is still in flight.
  pub one_frame_in_flight :
      s.stub.pc ≡ finishing swap
      → (q : ℕ) → was_swap q run ≡ true
      → q ≢ s.stub.cur_seq
      → q < s.ring.completed_seq
  one_frame_in_flight e q was other =
      let frames = Reach-Frames q (slots_distinct setting) run in
      let pending : s.stub.have_pending_swap ≡ true
          → s.stub.pending_swap_seq < s.ring.completed_seq =
        ground (arith, all_async.returns) in
      elim (frames.known was) [
        | inl before ↦ omega (arith, pending before.0, before.1)
        | inr own ↦ absurd (other own.0)
      ]
