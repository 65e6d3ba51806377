-- ===== src/Ring/Wakeups/ByProxy.antt =====
-- The flag and the counters under the steps of the proxy (proxy/proxy.c).
use webos_bridge_64to.Common.{ℕ, ◌<◌, ◌≡◌, ◌≢◌, Bool, true, false, arith}
use webos_bridge_64to.Ring.Stub.{Send, reading}
use webos_bridge_64to.Ring.Proxy.{
  sleeping, responding, run_handler, release_data, store_completed, after_complete,
}
use webos_bridge_64to.Ring.System.{
  System, ProxyStep, see_work, see_none, arm, see_work_armed, see_none_armed, wake, disarm,
  dispatch, release, complete, respond,
}
use webos_bridge_64to.Ring.Counts.{Counts}
use webos_bridge_64to.Ring.Contents.{Contents}
use webos_bridge_64to.Ring.Wakeups.Defs.{
  waiting, notifying, Asked, IsPosting, Awaited, Owed, Wakeups,
}

module _ {n : ℕ} {async : Bool} where
  ProxyStep-flag :
      {s t : System}
      → ProxyStep n async s t
      → Counts n s
      → Contents n s
      → Wakeups n async s
      → t.ring.consumer_waiting ≡ waiting t.proxy.pc
  unfolding run_handler release_data store_completed after_complete
  ProxyStep-flag (see_work e h) counts contents inv = ground arith
  ProxyStep-flag (see_none e h) counts contents inv = ground arith
  ProxyStep-flag (arm e) counts contents inv = ground arith
  ProxyStep-flag (see_work_armed e h) counts contents inv = ground arith
  ProxyStep-flag (see_none_armed e h) counts contents inv = ground arith
  ProxyStep-flag (wake e h) counts contents inv = ground arith
  ProxyStep-flag (disarm e) counts contents inv = ground arith
  ProxyStep-flag (dispatch reply e) counts contents inv = ground arith
  ProxyStep-flag (release e) counts contents inv = ground arith
  ProxyStep-flag (complete e) counts contents inv = ground arith
  ProxyStep-flag (respond e) counts contents inv = ground arith

  ProxyStep-Asked :
      {s t : System}
      → ProxyStep n async s t
      → Counts n s
      → Contents n s
      → Wakeups n async s
      → Asked n async t.stub.pc t.stub.cur_seq t.ring t.history.sent
  unfolding run_handler release_data store_completed after_complete
  ProxyStep-Asked (see_work e h) counts contents inv = ground arith
  ProxyStep-Asked (see_none e h) counts contents inv = ground arith
  ProxyStep-Asked (arm e) counts contents inv = ground arith
  ProxyStep-Asked (see_work_armed e h) counts contents inv = ground arith
  ProxyStep-Asked (see_none_armed e h) counts contents inv = ground arith
  ProxyStep-Asked (wake e h) counts contents inv = ground arith
  ProxyStep-Asked (disarm e) counts contents inv = ground arith
  ProxyStep-Asked (dispatch reply e) counts contents inv = ground arith
  ProxyStep-Asked (release e) counts contents inv = ground arith
  ProxyStep-Asked (complete e) counts contents inv = ground arith
  ProxyStep-Asked (respond e) counts contents inv = ground arith

  ProxyStep-pending :
      {s t : System}
      → ProxyStep n async s t
      → Counts n s
      → Contents n s
      → Wakeups n async s
      → t.stub.have_pending_swap ≡ true
      → IsPosting t.history.sent t.ring.published_seq t.stub.pending_swap_seq
  unfolding run_handler release_data store_completed after_complete
  ProxyStep-pending (see_work e h) counts contents inv have = ground arith
  ProxyStep-pending (see_none e h) counts contents inv have = ground arith
  ProxyStep-pending (arm e) counts contents inv have = ground arith
  ProxyStep-pending (see_work_armed e h) counts contents inv have = ground arith
  ProxyStep-pending (see_none_armed e h) counts contents inv have = ground arith
  ProxyStep-pending (wake e h) counts contents inv have = ground arith
  ProxyStep-pending (disarm e) counts contents inv have = ground arith
  ProxyStep-pending (dispatch reply e) counts contents inv have = ground arith
  ProxyStep-pending (release e) counts contents inv have = ground arith
  ProxyStep-pending (complete e) counts contents inv have = ground arith
  ProxyStep-pending (respond e) counts contents inv have = ground arith

  ProxyStep-Awaited :
      {s t : System}
      → ProxyStep n async s t
      → Counts n s
      → Contents n s
      → Wakeups n async s
      → Awaited t.stub.pc t.history.sent t.ring.published_seq
  unfolding run_handler release_data store_completed after_complete
  ProxyStep-Awaited (see_work e h) counts contents inv = ground arith
  ProxyStep-Awaited (see_none e h) counts contents inv = ground arith
  ProxyStep-Awaited (arm e) counts contents inv = ground arith
  ProxyStep-Awaited (see_work_armed e h) counts contents inv = ground arith
  ProxyStep-Awaited (see_none_armed e h) counts contents inv = ground arith
  ProxyStep-Awaited (wake e h) counts contents inv = ground arith
  ProxyStep-Awaited (disarm e) counts contents inv = ground arith
  ProxyStep-Awaited (dispatch reply e) counts contents inv = ground arith
  ProxyStep-Awaited (release e) counts contents inv = ground arith
  ProxyStep-Awaited (complete e) counts contents inv = ground arith
  ProxyStep-Awaited (respond e) counts contents inv = ground arith

  ProxyStep-Owed :
      {s t : System}
      → ProxyStep n async s t
      → Counts n s
      → Contents n s
      → Wakeups n async s
      → Owed t.proxy.pc (t.history.sent t.proxy.completed)
  unfolding run_handler release_data store_completed after_complete
  ProxyStep-Owed (see_work e h) counts contents inv = ground arith
  ProxyStep-Owed (see_none e h) counts contents inv = ground arith
  ProxyStep-Owed (arm e) counts contents inv = ground arith
  ProxyStep-Owed (see_work_armed e h) counts contents inv = ground arith
  ProxyStep-Owed (see_none_armed e h) counts contents inv = ground arith
  ProxyStep-Owed (wake e h) counts contents inv = ground arith
  ProxyStep-Owed (disarm e) counts contents inv = ground arith
  ProxyStep-Owed (dispatch reply e) counts contents inv = ground arith
  ProxyStep-Owed {s} (release e) counts contents inv =
      ground (arith, contents.kept s.proxy.completed)
  ProxyStep-Owed (complete e) counts contents inv = ground arith
  ProxyStep-Owed (respond e) counts contents inv = ground arith

  ProxyStep-request :
      {s t : System}
      → ProxyStep n async s t
      → Counts n s
      → Contents n s
      → Wakeups n async s
      → t.proxy.pc ≡ sleeping
      → notifying t.stub.pc ≡ false
      → t.proxy.completed < t.ring.published_seq
      → 0 < t.ring.req_efd
  unfolding run_handler release_data store_completed after_complete
  ProxyStep-request (see_work e h) counts contents inv asleep quiet work = ground arith
  ProxyStep-request (see_none e h) counts contents inv asleep quiet work = ground arith
  ProxyStep-request (arm e) counts contents inv asleep quiet work = ground arith
  ProxyStep-request (see_work_armed e h) counts contents inv asleep quiet work = ground arith
  ProxyStep-request (see_none_armed e h) counts contents inv asleep quiet work = ground arith
  ProxyStep-request (wake e h) counts contents inv asleep quiet work = ground arith
  ProxyStep-request (disarm e) counts contents inv asleep quiet work = ground arith
  ProxyStep-request (dispatch reply e) counts contents inv asleep quiet work = ground arith
  ProxyStep-request (release e) counts contents inv asleep quiet work = ground arith
  ProxyStep-request (complete e) counts contents inv asleep quiet work = ground arith
  ProxyStep-request (respond e) counts contents inv asleep quiet work = ground arith

  ProxyStep-response :
      {s t : System}
      → ProxyStep n async s t
      → Counts n s
      → Contents n s
      → Wakeups n async s
      → (seq : ℕ) (k : Send) → t.stub.pc ≡ reading seq k
      → seq < t.ring.completed_seq
      → t.proxy.pc ≢ responding
      → 0 < t.ring.resp_efd
  unfolding run_handler release_data store_completed after_complete
  ProxyStep-response (see_work e h) counts contents inv m j at done free =
      ground (arith, inv.response m j)
  ProxyStep-response (see_none e h) counts contents inv m j at done free =
      ground (arith, inv.response m j)
  ProxyStep-response (arm e) counts contents inv m j at done free = ground (arith, inv.response m j)
  ProxyStep-response (see_work_armed e h) counts contents inv m j at done free =
      ground (arith, inv.response m j)
  ProxyStep-response (see_none_armed e h) counts contents inv m j at done free =
      ground (arith, inv.response m j)
  ProxyStep-response (wake e h) counts contents inv m j at done free =
      ground (arith, inv.response m j)
  ProxyStep-response (disarm e) counts contents inv m j at done free =
      ground (arith, inv.response m j)
  ProxyStep-response (dispatch reply e) counts contents inv m j at done free =
      ground (arith, inv.response m j)
  ProxyStep-response (release e) counts contents inv m j at done free =
      ground (arith, inv.response m j)
  ProxyStep-response (complete e) counts contents inv m j at done free =
      ground (arith, inv.response m j)
  ProxyStep-response (respond e) counts contents inv m j at done free =
      ground (arith, inv.response m j)

  pub ProxyStep-Wakeups :
      {s t : System}
      → ProxyStep n async s t
      → Counts n s
      → Contents n s
      → Wakeups n async s
      → Wakeups n async t
  ProxyStep-Wakeups st counts contents inv = record {
    flag = ProxyStep-flag st counts contents inv;
    asked = ProxyStep-Asked st counts contents inv;
    pending = ProxyStep-pending st counts contents inv;
    awaited = ProxyStep-Awaited st counts contents inv;
    owed = ProxyStep-Owed st counts contents inv;
    request = ProxyStep-request st counts contents inv;
    response = ProxyStep-response st counts contents inv;
  }
