-- ===== src/Ring/Wakeups/ByStub.antt =====
-- The flag and the counters under the steps of the stub (stub/bridge_core.c).
use webos_bridge_64to.Common.{ℕ, ◌<◌, ◌≡◌, ◌≢◌, Bool, true, false, arith}
use webos_bridge_64to.Ring.Stub.{
  Send, reading, ring_reserve_slot, begin_slot, store_needs, needs_of, store_published,
  after_publish, finish,
}
use webos_bridge_64to.Ring.Proxy.{sleeping, responding}
use webos_bridge_64to.Ring.System.{
  System, StubStep, begin, reserved, fill, send, publish, see_awake, see_asleep, post, see_done,
  see_undone, woken, return,
}
use webos_bridge_64to.Ring.Counts.{Counts}
use webos_bridge_64to.Ring.Contents.{Contents}
use webos_bridge_64to.Ring.Wakeups.Defs.{
  waiting, notifying, Asked, IsPosting, Awaited, Owed, Wakeups,
}

module _ {n : ℕ} {async : Bool} where
  StubStep-flag :
      {s t : System}
      → StubStep n async s t
      → Counts n s
      → Contents n s
      → Wakeups n async s
      → t.ring.consumer_waiting ≡ waiting t.proxy.pc
  unfolding ring_reserve_slot store_needs store_published begin_slot after_publish finish needs_of
  StubStep-flag (begin e) counts contents inv = ground arith
  StubStep-flag (reserved pid ctx head e low r) counts contents inv = ground arith
  StubStep-flag (fill c e) counts contents inv = ground arith
  StubStep-flag (send k e) counts contents inv = ground arith
  StubStep-flag (publish e) counts contents inv = ground arith
  StubStep-flag (see_awake e w) counts contents inv = ground arith
  StubStep-flag (see_asleep e w) counts contents inv = ground arith
  StubStep-flag (post e) counts contents inv = ground arith
  StubStep-flag (see_done e h) counts contents inv = ground arith
  StubStep-flag (see_undone e h) counts contents inv = ground arith
  StubStep-flag (woken e h) counts contents inv = ground arith
  StubStep-flag (return e) counts contents inv = ground arith

  StubStep-Asked :
      {s t : System}
      → StubStep n async s t
      → Counts n s
      → Contents n s
      → Wakeups n async s
      → Asked n async t.stub.pc t.stub.cur_seq t.ring t.history.sent
  unfolding ring_reserve_slot store_needs store_published begin_slot after_publish finish needs_of
  StubStep-Asked (begin e) counts contents inv = ground arith
  StubStep-Asked (reserved pid ctx head e low r) counts contents inv = ground arith
  StubStep-Asked (fill c e) counts contents inv = ground arith
  StubStep-Asked (send k e) counts contents inv = ground arith
  StubStep-Asked (publish e) counts contents inv = ground arith
  StubStep-Asked (see_awake e w) counts contents inv = ground arith
  StubStep-Asked (see_asleep e w) counts contents inv = ground arith
  StubStep-Asked (post e) counts contents inv = ground arith
  StubStep-Asked (see_done e h) counts contents inv = ground arith
  StubStep-Asked (see_undone e h) counts contents inv = ground arith
  StubStep-Asked (woken e h) counts contents inv = ground arith
  StubStep-Asked (return e) counts contents inv = ground arith

  StubStep-pending :
      {s t : System}
      → StubStep n async s t
      → Counts n s
      → Contents n s
      → Wakeups n async s
      → t.stub.have_pending_swap ≡ true
      → IsPosting t.history.sent t.ring.published_seq t.stub.pending_swap_seq
  unfolding ring_reserve_slot store_needs store_published begin_slot after_publish finish needs_of
  StubStep-pending (begin e) counts contents inv have = ground arith
  StubStep-pending (reserved pid ctx head e low r) counts contents inv have = ground arith
  StubStep-pending (fill c e) counts contents inv have = ground arith
  StubStep-pending (send k e) counts contents inv have = ground arith
  StubStep-pending (publish e) counts contents inv have = ground arith
  StubStep-pending (see_awake e w) counts contents inv have = ground arith
  StubStep-pending (see_asleep e w) counts contents inv have = ground arith
  StubStep-pending (post e) counts contents inv have = ground arith
  StubStep-pending (see_done e h) counts contents inv have = ground arith
  StubStep-pending (see_undone e h) counts contents inv have = ground arith
  StubStep-pending (woken e h) counts contents inv have = ground arith
  StubStep-pending (return e) counts contents inv have = ground arith

  StubStep-Awaited :
      {s t : System}
      → StubStep n async s t
      → Counts n s
      → Contents n s
      → Wakeups n async s
      → Awaited t.stub.pc t.history.sent t.ring.published_seq
  unfolding ring_reserve_slot store_needs store_published begin_slot after_publish finish needs_of
  StubStep-Awaited (begin e) counts contents inv = ground arith
  StubStep-Awaited (reserved pid ctx head e low r) counts contents inv = ground arith
  StubStep-Awaited (fill c e) counts contents inv = ground arith
  StubStep-Awaited (send k e) counts contents inv = ground arith
  StubStep-Awaited (publish e) counts contents inv = ground arith
  StubStep-Awaited (see_awake e w) counts contents inv = ground arith
  StubStep-Awaited (see_asleep e w) counts contents inv = ground arith
  StubStep-Awaited (post e) counts contents inv = ground arith
  StubStep-Awaited (see_done e h) counts contents inv = ground arith
  StubStep-Awaited (see_undone e h) counts contents inv = ground arith
  StubStep-Awaited (woken e h) counts contents inv = ground arith
  StubStep-Awaited (return e) counts contents inv = ground arith

  StubStep-Owed :
      {s t : System}
      → StubStep n async s t
      → Counts n s
      → Contents n s
      → Wakeups n async s
      → Owed t.proxy.pc (t.history.sent t.proxy.completed)
  unfolding ring_reserve_slot store_needs store_published begin_slot after_publish finish needs_of
  StubStep-Owed (begin e) counts contents inv = ground arith
  StubStep-Owed (reserved pid ctx head e low r) counts contents inv = ground arith
  StubStep-Owed (fill c e) counts contents inv = ground arith
  StubStep-Owed (send k e) counts contents inv = ground arith
  StubStep-Owed (publish e) counts contents inv = ground arith
  StubStep-Owed (see_awake e w) counts contents inv = ground arith
  StubStep-Owed (see_asleep e w) counts contents inv = ground arith
  StubStep-Owed (post e) counts contents inv = ground arith
  StubStep-Owed (see_done e h) counts contents inv = ground arith
  StubStep-Owed (see_undone e h) counts contents inv = ground arith
  StubStep-Owed (woken e h) counts contents inv = ground arith
  StubStep-Owed (return e) counts contents inv = ground arith

  StubStep-request :
      {s t : System}
      → StubStep n async s t
      → Counts n s
      → Contents n s
      → Wakeups n async s
      → t.proxy.pc ≡ sleeping
      → notifying t.stub.pc ≡ false
      → t.proxy.completed < t.ring.published_seq
      → 0 < t.ring.req_efd
  unfolding ring_reserve_slot store_needs store_published begin_slot after_publish finish needs_of
  StubStep-request (begin e) counts contents inv asleep quiet work = ground arith
  StubStep-request (reserved pid ctx head e low r) counts contents inv asleep quiet work =
      ground arith
  StubStep-request (fill c e) counts contents inv asleep quiet work = ground arith
  StubStep-request (send k e) counts contents inv asleep quiet work = ground arith
  StubStep-request (publish e) counts contents inv asleep quiet work = ground arith
  StubStep-request (see_awake e w) counts contents inv asleep quiet work = ground arith
  StubStep-request (see_asleep e w) counts contents inv asleep quiet work = ground arith
  StubStep-request (post e) counts contents inv asleep quiet work = ground arith
  StubStep-request (see_done e h) counts contents inv asleep quiet work = ground arith
  StubStep-request (see_undone e h) counts contents inv asleep quiet work = ground arith
  StubStep-request (woken e h) counts contents inv asleep quiet work = ground arith
  StubStep-request (return e) counts contents inv asleep quiet work = ground arith

  StubStep-response :
      {s t : System}
      → StubStep n async s t
      → Counts n s
      → Contents n s
      → Wakeups n async s
      → (seq : ℕ) (k : Send) → t.stub.pc ≡ reading seq k
      → seq < t.ring.completed_seq
      → t.proxy.pc ≢ responding
      → 0 < t.ring.resp_efd
  unfolding ring_reserve_slot store_needs store_published begin_slot after_publish finish needs_of
  StubStep-response (begin e) counts contents inv m j at done free =
      ground (arith, inv.response m j)
  StubStep-response (reserved pid ctx head e low r) counts contents inv m j at done free =
      ground (arith, inv.response m j)
  StubStep-response (fill c e) counts contents inv m j at done free =
      ground (arith, inv.response m j)
  StubStep-response (send k e) counts contents inv m j at done free =
      ground (arith, inv.response m j)
  StubStep-response (publish e) counts contents inv m j at done free =
      ground (arith, inv.response m j)
  StubStep-response (see_awake e w) counts contents inv m j at done free =
      ground (arith, inv.response m j)
  StubStep-response (see_asleep e w) counts contents inv m j at done free =
      ground (arith, inv.response m j)
  StubStep-response (post e) counts contents inv m j at done free = ground (arith, inv.response m j)
  StubStep-response (see_done e h) counts contents inv m j at done free =
      ground (arith, inv.response m j)
  StubStep-response (see_undone e h) counts contents inv m j at done free =
      ground (arith, inv.response m j)
  StubStep-response (woken e h) counts contents inv m j at done free =
      ground (arith, inv.response m j)
  StubStep-response (return e) counts contents inv m j at done free =
      ground (arith, inv.response m j)

  pub StubStep-Wakeups :
      {s t : System}
      → StubStep n async s t
      → Counts n s
      → Contents n s
      → Wakeups n async s
      → Wakeups n async t
  StubStep-Wakeups st counts contents inv = record {
    flag = StubStep-flag st counts contents inv;
    asked = StubStep-Asked st counts contents inv;
    pending = StubStep-pending st counts contents inv;
    awaited = StubStep-Awaited st counts contents inv;
    owed = StubStep-Owed st counts contents inv;
    request = StubStep-request st counts contents inv;
    response = StubStep-response st counts contents inv;
  }
