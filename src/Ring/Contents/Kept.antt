-- ===== src/Ring/Contents/Kept.antt =====
-- The requests in the slots of the ring of stub/bridge_core.c.
use webos_bridge_64to.Common.{ℕ, ◌≤◌, ◌<◌, ◌≡◌, Bool, arith}
use webos_bridge_64to.Ring.Shared.{slot_index, request_of}
use webos_bridge_64to.Ring.Stub.{ring_reserve_slot, begin_slot, store_needs, store_published}
use webos_bridge_64to.Ring.Proxy.{run_handler, release_data, store_completed}
use webos_bridge_64to.Ring.System.{
  System, StubStep, ProxyStep, begin, reserved, fill, send, publish, see_awake, see_asleep, post,
  see_done, see_undone, woken, return, see_work, see_none, arm, see_work_armed, see_none_armed,
  wake, disarm, dispatch, release, complete, respond,
}
use webos_bridge_64to.Ring.Counts.{Counts}
use webos_bridge_64to.Ring.Contents.Defs.{Contents, SlotsDistinct}

module _ {n : ℕ} {async : Bool} (distinct : SlotsDistinct n) where
  pub StubStep-kept :
      {s t : System}
      → StubStep n async s t
      → Counts n s
      → Contents n s
      → (i : ℕ) → t.ring.completed_seq ≤ i
      → i < t.ring.published_seq
      → request_of (t.ring.slots (slot_index n i)) ≡ request_of (t.history.sent i)
  unfolding ring_reserve_slot store_needs store_published begin_slot
  StubStep-kept (begin e) counts inv i lo hi = ground (arith, inv.kept i)
  StubStep-kept {s} (reserved pid ctx head {b} e low r) counts inv i lo hi =
      ground (arith, inv.kept i, distinct s.ring.completed_seq i b.cur_seq)
  StubStep-kept {s} (fill c e) counts inv i lo hi =
      ground (arith, inv.kept i, distinct s.ring.completed_seq i s.stub.cur_seq)
  StubStep-kept {s} (send k e) counts inv i lo hi =
      ground (arith, inv.kept i, distinct s.ring.completed_seq i s.stub.cur_seq)
  StubStep-kept {s} (publish e) counts inv i lo hi =
      ground (arith, inv.kept i, distinct s.ring.completed_seq i s.stub.cur_seq)
  StubStep-kept (see_awake e w) counts inv i lo hi = ground (arith, inv.kept i)
  StubStep-kept (see_asleep e w) counts inv i lo hi = ground (arith, inv.kept i)
  StubStep-kept (post e) counts inv i lo hi = ground (arith, inv.kept i)
  StubStep-kept (see_done e h) counts inv i lo hi = ground (arith, inv.kept i)
  StubStep-kept (see_undone e h) counts inv i lo hi = ground (arith, inv.kept i)
  StubStep-kept (woken e h) counts inv i lo hi = ground (arith, inv.kept i)
  StubStep-kept (return e) counts inv i lo hi = ground (arith, inv.kept i)

  pub ProxyStep-kept :
      {s t : System}
      → ProxyStep n async s t
      → Counts n s
      → Contents n s
      → (i : ℕ) → t.ring.completed_seq ≤ i
      → i < t.ring.published_seq
      → request_of (t.ring.slots (slot_index n i)) ≡ request_of (t.history.sent i)
  unfolding run_handler release_data store_completed
  ProxyStep-kept (see_work e h) counts inv i lo hi = ground (arith, inv.kept i)
  ProxyStep-kept (see_none e h) counts inv i lo hi = ground (arith, inv.kept i)
  ProxyStep-kept (arm e) counts inv i lo hi = ground (arith, inv.kept i)
  ProxyStep-kept (see_work_armed e h) counts inv i lo hi = ground (arith, inv.kept i)
  ProxyStep-kept (see_none_armed e h) counts inv i lo hi = ground (arith, inv.kept i)
  ProxyStep-kept (wake e h) counts inv i lo hi = ground (arith, inv.kept i)
  ProxyStep-kept (disarm e) counts inv i lo hi = ground (arith, inv.kept i)
  ProxyStep-kept (dispatch reply e) counts inv i lo hi = ground (arith, inv.kept i)
  ProxyStep-kept (release e) counts inv i lo hi = ground (arith, inv.kept i)
  ProxyStep-kept (complete e) counts inv i lo hi = ground (arith, inv.kept i)
  ProxyStep-kept (respond e) counts inv i lo hi = ground (arith, inv.kept i)
