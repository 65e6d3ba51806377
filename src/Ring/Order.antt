-- ===== src/Ring/Order.antt =====
-- The order of the commands, and the slots they stand in.
use webos_bridge_64to.Common.{ℕ, ◌+◌, ◌≤◌, ◌<◌, ◌≡◌, ◌≢◌, Bool, arith}
use webos_bridge_64to.Config.Slots.{slots_of_setting}
use webos_bridge_64to.Ring.Shared.{slot_index, request_of}
use webos_bridge_64to.Ring.Stub.{filling}
use webos_bridge_64to.Ring.Proxy.{dispatching}
use webos_bridge_64to.Ring.System.{System, Reach}
use webos_bridge_64to.Ring.Contents.{requests, ran, ran-le}
use webos_bridge_64to.Ring.Invariant.{Inv, Reach-Inv, slots_distinct}

module _ (setting : ℕ) {async : Bool} {s : System}
    (run : Reach (slots_of_setting setting) async s) where
  all : Inv (slots_of_setting setting) async s
  all = Reach-Inv (slots_distinct setting) run

  -- Whatever the interleaving of the two processes, the commands that the proxy has dispatched are
  -- the published ones, each once, in the order of publication and without a gap, as the stub wrote
  -- them; no command is dispatched before it is published, and at most as many commands as there
  -- are slots are published and not completed.
  pub dispatched_in_order :
      (s.history.dispatched ≡ requests s.history.sent (s.ring.completed_seq + ran s.proxy.pc))
      × (s.ring.completed_seq + ran s.proxy.pc ≤ s.ring.published_seq)
      × (s.ring.published_seq ≤ s.ring.completed_seq + slots_of_setting setting)
  dispatched_in_order =
      let counts = all.counts in
      (
        all.contents.log,
        ran-le s.proxy.pc s.ring.completed_seq s.ring.published_seq
            (ground (arith, counts.busy, counts.same)) (counts.le),
        omega (arith, counts.next, counts.window),
      )

  -- While the stub fills the slot that it has reserved, that slot is not the slot of any command
  -- that is published and not completed, so the stub never overwrites a command that the proxy has
  -- still to read.
  pub filled_slot_is_free :
      (i : ℕ)
      → s.stub.pc ≡ filling
      → s.ring.completed_seq ≤ i
      → i < s.ring.published_seq
      → slot_index (slots_of_setting setting) s.stub.cur_seq
        ≢ slot_index (slots_of_setting setting) i
  filled_slot_is_free i e lo hi same =
      let counts = all.counts in
      let current : s.stub.cur_seq + 1 ≡ s.stub.local_seq = ground (arith, counts.current) in
      let next : s.stub.local_seq ≡ s.ring.published_seq + 1 = ground (arith, counts.next) in
      let equal =
        slots_distinct setting s.ring.completed_seq s.stub.cur_seq i
          (omega (arith, current, next, counts.le)) (omega (arith, current, counts.window)) lo
          (omega (arith, next, counts.window)) same in
      omega (arith, equal, current, next)

  -- When the proxy is about to call a handler, the slot it reads holds the request that the stub
  -- published under that sequence number.
  pub dispatch_reads_published :
      s.proxy.pc ≡ dispatching
      → request_of (s.ring.slots (slot_index (slots_of_setting setting) s.proxy.completed))
        ≡ request_of (s.history.sent s.proxy.completed)
  dispatch_reads_published e =
      let counts = all.counts in
      all.contents.kept s.proxy.completed (omega (arith, counts.same)) (ground (arith, counts.busy))
