-- ===== src/Ring/Contents/Log.antt =====
-- The log of what proxy/proxy.c has dispatched.
use webos_bridge_64to.Common.{ℕ, ap, ◌∙◌, ◌+◌, ◌≡◌, Bool, arith}
use webos_bridge_64to.Ring.Shared.{slot_index}
use webos_bridge_64to.Ring.Stub.{ring_reserve_slot, begin_slot, store_needs, store_published}
use webos_bridge_64to.Ring.Proxy.{run_handler, release_data, store_completed, after_complete}
use webos_bridge_64to.Ring.System.{
  System, StubStep, ProxyStep, begin, reserved, fill, send, publish, see_awake, see_asleep, post,
  see_done, see_undone, woken, return, see_work, see_none, arm, see_work_armed, see_none_armed,
  wake, disarm, dispatch, release, complete, respond,
}
use webos_bridge_64to.Ring.Counts.{Counts}
use webos_bridge_64to.Ring.Contents.Defs.{
  requests, ran, Contents, requests-update, requests-add, ran-le,
}

module _ {n : ℕ} {async : Bool} where
  pub StubStep-log :
      {s t : System}
      → StubStep n async s t
      → Counts n s
      → Contents n s
      → t.history.dispatched ≡ requests t.history.sent (t.ring.completed_seq + ran t.proxy.pc)
  unfolding ring_reserve_slot store_needs store_published begin_slot
  StubStep-log (begin e) counts inv = inv.log
  StubStep-log (reserved pid ctx head e low r) counts inv = inv.log
  StubStep-log (fill c e) counts inv = inv.log
  StubStep-log (send k e) counts inv = inv.log
  StubStep-log {s} (publish e) counts inv = ground (
    arith,
    inv.log,
    ran-le s.proxy.pc s.proxy.completed s.ring.published_seq,
    requests-update s.history.sent s.stub.cur_seq (s.ring.slots (slot_index n s.stub.cur_seq))
        (s.ring.completed_seq + ran s.proxy.pc),
  )
  StubStep-log (see_awake e w) counts inv = inv.log
  StubStep-log (see_asleep e w) counts inv = inv.log
  StubStep-log (post e) counts inv = inv.log
  StubStep-log (see_done e h) counts inv = inv.log
  StubStep-log (see_undone e h) counts inv = inv.log
  StubStep-log (woken e h) counts inv = inv.log
  StubStep-log (return e) counts inv = inv.log

  pub ProxyStep-log :
      {s t : System}
      → ProxyStep n async s t
      → Counts n s
      → Contents n s
      → t.history.dispatched ≡ requests t.history.sent (t.ring.completed_seq + ran t.proxy.pc)
  unfolding run_handler release_data store_completed after_complete
  ProxyStep-log (see_work e h) counts inv = ground (arith, inv.log)
  ProxyStep-log (see_none e h) counts inv = ground (arith, inv.log)
  ProxyStep-log (arm e) counts inv = ground (arith, inv.log)
  ProxyStep-log (see_work_armed e h) counts inv = ground (arith, inv.log)
  ProxyStep-log (see_none_armed e h) counts inv = ground (arith, inv.log)
  ProxyStep-log (wake e h) counts inv = ground (arith, inv.log)
  ProxyStep-log (disarm e) counts inv = ground (arith, inv.log)
  ProxyStep-log {s} (dispatch reply e) counts inv = ground (
    arith,
    inv.log,
    inv.kept s.ring.completed_seq,
    requests-add s.history.sent s.ring.completed_seq,
  )
  ProxyStep-log (release e) counts inv = ground (arith, inv.log)
  ProxyStep-log {s} (complete {needs_resp} e) counts inv =
      inv.log ∙ ap (requests s.history.sent) (ground arith)
  ProxyStep-log (respond e) counts inv = ground (arith, inv.log)
