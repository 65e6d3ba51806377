-- ===== src/Ring/Counts.antt =====
-- The sequence numbers of the ring: how they are ordered in every state of a run.
use webos_bridge_64to.Common.{ℕ, ◌+◌, ◌^◌, ◌≤◌, ◌<◌, ◌≡◌, Bool, arith}
use webos_bridge_64to.Ring.Stub.{
  StubPc, idle, reserving, filling, publishing, ring_reserve_slot, store_needs, store_published,
  after_publish, finish,
}
use webos_bridge_64to.Ring.Proxy.{
  ProxyPc, dispatching, releasing, completing, run_handler, release_data, store_completed,
  after_complete,
}
use webos_bridge_64to.Ring.System.{
  System, StubStep, ProxyStep, begin, reserved, fill, send, publish, see_awake, see_asleep, post,
  see_done, see_undone, woken, return, see_work, see_none, arm, see_work_armed, see_none_armed,
  wake, disarm, dispatch, release, complete, respond,
}

-- The slot that the producer has reserved and not published.
abbrev pub held : StubPc → ℕ
held filling = 1
held (publishing _) = 1
held _ = 0

-- From `bridge_begin` to the return, `g_cur_seq` is the last reserved number.
abbrev pub IsCurrent : StubPc → ℕ → ℕ → Type 0
IsCurrent idle cur next = Unit
IsCurrent reserving cur next = Unit
IsCurrent _ cur next = cur + 1 ≡ next

abbrev pub IsBusy : ProxyPc → ℕ → ℕ → Type 0
IsBusy dispatching done sent = done < sent
IsBusy releasing done sent = done < sent
IsBusy (completing _) done sent = done < sent
IsBusy _ done sent = Unit

pub record Counts (n : ℕ) (s : System) : Type 0 where
  pub same : s.proxy.completed ≡ s.ring.completed_seq
  pub le : s.ring.completed_seq ≤ s.ring.published_seq
  pub next : s.stub.local_seq ≡ s.ring.published_seq + held s.stub.pc
  pub window : s.stub.local_seq ≤ s.ring.completed_seq + n
  pub small : s.stub.local_seq < 2 ^ 64
  pub current : IsCurrent s.stub.pc s.stub.cur_seq s.stub.local_seq
  pub busy : IsBusy s.proxy.pc s.proxy.completed s.ring.published_seq

module _ {n : ℕ} {async : Bool} where
  pub StubStep-Counts : {s t : System} → StubStep n async s t → Counts n s → Counts n t
  unfolding ring_reserve_slot store_needs store_published after_publish finish
  StubStep-Counts (begin e) inv = ground arith
  StubStep-Counts (reserved pid ctx head e low r) inv = ground arith
  StubStep-Counts (fill c e) inv = ground arith
  StubStep-Counts (send k e) inv = ground arith
  StubStep-Counts (publish e) inv = ground arith
  StubStep-Counts (see_awake e w) inv = ground arith
  StubStep-Counts (see_asleep e w) inv = ground arith
  StubStep-Counts (post e) inv = ground arith
  StubStep-Counts (see_done e h) inv = ground arith
  StubStep-Counts (see_undone e h) inv = ground arith
  StubStep-Counts (woken e h) inv = ground arith
  StubStep-Counts (return e) inv = ground arith

  pub ProxyStep-Counts : {s t : System} → ProxyStep n async s t → Counts n s → Counts n t
  unfolding run_handler release_data store_completed after_complete
  ProxyStep-Counts (see_work e h) inv = ground arith
  ProxyStep-Counts (see_none e h) inv = ground arith
  ProxyStep-Counts (arm e) inv = ground arith
  ProxyStep-Counts (see_work_armed e h) inv = ground arith
  ProxyStep-Counts (see_none_armed e h) inv = ground arith
  ProxyStep-Counts (wake e h) inv = ground arith
  ProxyStep-Counts (disarm e) inv = ground arith
  ProxyStep-Counts (dispatch reply e) inv = ground arith
  ProxyStep-Counts (release e) inv = ground arith
  ProxyStep-Counts (complete e) inv = ground arith
  ProxyStep-Counts (respond e) inv = ground arith
