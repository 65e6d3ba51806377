-- ===== src/Ring/Contents/Answered.antt =====
-- The answer of proxy/proxy.c to the last command, in its slot.
use webos_bridge_64to.Common.{ℕ, ◌+◌, ◌<◌, ◌≡◌, Bool, arith}
use webos_bridge_64to.Ring.Shared.{slot_index}
use webos_bridge_64to.Ring.Stub.{
  ring_reserve_slot, begin_slot, store_needs, store_published, after_publish, finish,
}
use webos_bridge_64to.Ring.Proxy.{run_handler, release_data, store_completed, after_complete}
use webos_bridge_64to.Ring.System.{
  System, StubStep, ProxyStep, begin, reserved, fill, send, publish, see_awake, see_asleep, post,
  see_done, see_undone, woken, return, see_work, see_none, arm, see_work_armed, see_none_armed,
  wake, disarm, dispatch, release, complete, respond,
}
use webos_bridge_64to.Ring.Counts.{held, Counts}
use webos_bridge_64to.Ring.Contents.Defs.{ran, Holds, Contents}

module _ {n : ℕ} {async : Bool} where
  pub StubStep-answered :
      {s t : System}
      → StubStep n async s t
      → Counts n s
      → Contents n s
      → (i : ℕ) → i + 1 ≡ t.ring.published_seq
      → held t.stub.pc ≡ 0
      → i < t.ring.completed_seq + ran t.proxy.pc
      → Holds t.ring (t.ring.slots (slot_index n i)) (t.history.replies i)
  unfolding ring_reserve_slot store_needs store_published begin_slot after_publish finish
  StubStep-answered (begin e) counts inv i last free done = ground (arith, inv.answered i)
  StubStep-answered (reserved pid ctx head e low r) counts inv i last free done =
      ground (arith, inv.answered i)
  StubStep-answered (fill c e) counts inv i last free done = ground (arith, inv.answered i)
  StubStep-answered (send k e) counts inv i last free done = ground (arith, inv.answered i)
  StubStep-answered (publish e) counts inv i last free done = ground (arith, inv.answered i)
  StubStep-answered (see_awake e w) counts inv i last free done = ground (arith, inv.answered i)
  StubStep-answered (see_asleep e w) counts inv i last free done = ground (arith, inv.answered i)
  StubStep-answered (post e) counts inv i last free done = ground (arith, inv.answered i)
  StubStep-answered (see_done e h) counts inv i last free done = ground (arith, inv.answered i)
  StubStep-answered (see_undone e h) counts inv i last free done = ground (arith, inv.answered i)
  StubStep-answered (woken e h) counts inv i last free done = ground (arith, inv.answered i)
  StubStep-answered (return e) counts inv i last free done = ground (arith, inv.answered i)

  pub ProxyStep-answered :
      {s t : System}
      → ProxyStep n async s t
      → Counts n s
      → Contents n s
      → (i : ℕ) → i + 1 ≡ t.ring.published_seq
      → held t.stub.pc ≡ 0
      → i < t.ring.completed_seq + ran t.proxy.pc
      → Holds t.ring (t.ring.slots (slot_index n i)) (t.history.replies i)
  unfolding run_handler release_data store_completed after_complete
  ProxyStep-answered (see_work e h) counts inv i last free done = ground (arith, inv.answered i)
  ProxyStep-answered (see_none e h) counts inv i last free done = ground (arith, inv.answered i)
  ProxyStep-answered (arm e) counts inv i last free done = ground (arith, inv.answered i)
  ProxyStep-answered (see_work_armed e h) counts inv i last free done =
      ground (arith, inv.answered i)
  ProxyStep-answered (see_none_armed e h) counts inv i last free done =
      ground (arith, inv.answered i)
  ProxyStep-answered (wake e h) counts inv i last free done = ground (arith, inv.answered i)
  ProxyStep-answered (disarm e) counts inv i last free done = ground (arith, inv.answered i)
  ProxyStep-answered (dispatch reply e) counts inv i last free done = ground (arith, inv.answered i)
  ProxyStep-answered (release e) counts inv i last free done = ground (arith, inv.answered i)
  ProxyStep-answered (complete e) counts inv i last free done = ground (arith, inv.answered i)
  ProxyStep-answered (respond e) counts inv i last free done = ground (arith, inv.answered i)
