-- ===== src/Ring/Blocking.antt =====
-- Where the two processes block: on a full ring, and in the reads of the two eventfds.
use webos_bridge_64to.Common.{
  ℕ, ◌+◌, ◌^◌, ◌≤◌, ◌<◌, ◌≡◌, ◌≢◌, Bool, false, none, arith, ◌⊎◌, inl, inr,
}
use webos_bridge_64to.Config.Slots.{slots_of_setting}
use webos_bridge_64to.Config.Rounding.{slot_index_lem}
use webos_bridge_64to.Ring.Stub.{Send, reserving, reading, ring_reserve_slot}
use webos_bridge_64to.Ring.Proxy.{sleeping, responding}
use webos_bridge_64to.Ring.System.{System, Reach}
use webos_bridge_64to.Ring.Wakeups.{notifying}
use webos_bridge_64to.Ring.Invariant.{Inv, Reach-Inv, slots_distinct}

-- The stub waits: `ring_reserve_slot` finds the ring full, or `efd_wait(resp_efd)` finds a counter
-- of 0.
abbrev pub StubBlocked : ℕ → System → Type 0
StubBlocked n s =
    ((s.stub.pc ≡ reserving) × (ring_reserve_slot n (s.stub) (s.ring) ≡ none))
    ⊎ ((seq : ℕ) × (k : Send) × (s.stub.pc ≡ reading seq k) × (s.ring.resp_efd ≡ 0))

abbrev pub ProxyBlocked : System → Type 0
ProxyBlocked s = (s.proxy.pc ≡ sleeping) × (s.ring.req_efd ≡ 0)

-- `ring_reserve_slot` refuses only when every slot holds a command that is not completed.
refused_when_full :
    (n : ℕ) (s : System)
    → s.ring.completed_seq ≤ s.stub.local_seq
    → s.stub.local_seq < 2 ^ 64
    → ring_reserve_slot n (s.stub) (s.ring) ≡ none
    → s.ring.completed_seq + n ≤ s.stub.local_seq
unfolding ring_reserve_slot
refused_when_full n s le small e = ground arith

module _ (setting : ℕ) {async : Bool} {s : System}
    (run : Reach (slots_of_setting setting) async s) where
  all : Inv (slots_of_setting setting) async s
  all = Reach-Inv (slots_distinct setting) run

  -- In no reachable state do both processes block: while the stub waits for a free slot or for a
  -- completion, the proxy is awake or the counter it reads is positive.
  pub never_both_blocked : StubBlocked (slots_of_setting setting) s → ¬ ProxyBlocked s
  never_both_blocked (inl full) blocked =
      let counts = all.counts in
      let next : s.stub.local_seq ≡ s.ring.published_seq = ground (arith, counts.next) in
      let low =
        refused_when_full (slots_of_setting setting) s (omega (arith, next, counts.le))
          (counts.small) (full.1) in
      let some_slots = (slot_index_lem setting 0).1 in
      let posted =
        all.wakeups.request (blocked.0) (ground arith)
          (omega (arith, low, next, some_slots, counts.same)) in
      omega (arith, posted, blocked.1)
  never_both_blocked (inr waits) blocked =
      let counts = all.counts in
      let (seq, k, at, none_yet) = waits in
      let awaited : seq < s.ring.published_seq = ground (arith, all.wakeups.awaited) in
      let awake : ¬ (s.proxy.completed < s.ring.published_seq) =
        ground (arith, all.wakeups.request) in
      let posted =
        all.wakeups.response seq k at (ground (arith, awaited, awake, counts.same))
          (ground arith) in
      omega (arith, posted, none_yet)

  -- No wake-up is lost: when the proxy sleeps with a published command to run, its eventfd is
  -- positive, unless the stub is still on its way to post it; and when the stub reads its eventfd for
  -- a command that is completed, the eventfd is positive, unless the proxy is about to post it.
  pub no_wakeup_is_lost :
      (s.proxy.pc ≡ sleeping
        → notifying s.stub.pc ≡ false
        → s.proxy.completed < s.ring.published_seq
        → 0 < s.ring.req_efd)
      × ((seq : ℕ) (k : Send)
          → s.stub.pc ≡ reading seq k
          → seq < s.ring.completed_seq
          → s.proxy.pc ≢ responding
          → 0 < s.ring.resp_efd)
  no_wakeup_is_lost = (all.wakeups.request, all.wakeups.response)
