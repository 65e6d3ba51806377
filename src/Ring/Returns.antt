-- ===== src/Ring/Returns.antt =====
-- What a caller knows when `bridge_send_call` or `bridge_send_swap` returns.
use webos_bridge_64to.Common.{ℕ, ◌<◌, ◌≡◌, Bool, not, true, false, arith}
use webos_bridge_64to.Ring.Stub.{
  Send, void, call, swap, StubPc, checking, reading, finishing, Stub, ring_reserve_slot,
  store_needs, store_published, after_publish, finish,
}
use webos_bridge_64to.Ring.Proxy.{run_handler, release_data, store_completed, after_complete}
use webos_bridge_64to.Ring.System.{
  System, StubStep, ProxyStep, begin, reserved, fill, send, publish, see_awake, see_asleep, post,
  see_done, see_undone, woken, return, see_work, see_none, arm, see_work_armed, see_none_armed,
  wake, disarm, dispatch, release, complete, respond,
}
use webos_bridge_64to.Ring.Counts.{Counts}

-- The send waits for its own command.
abbrev pub waits_for_own : Bool → Send → Bool
waits_for_own async void = false
waits_for_own async call = true
waits_for_own async swap = not async

-- The send waits for the swap before.
abbrev pub waits_for_last : Bool → Send → Bool
waits_for_last async swap = async
waits_for_last async _ = false

-- What a wait is about, and what its end has established.
pub record Target (async : Bool) (seq : ℕ) (k : Send) (b : Stub) : Type 0 where
  pub own : waits_for_own async k ≡ true → seq ≡ b.cur_seq
  pub last :
      waits_for_last async k ≡ true → (b.have_pending_swap ≡ true) × (seq ≡ b.pending_swap_seq)

pub record Finished (async : Bool) (k : Send) (b : Stub) (completed : ℕ) : Type 0 where
  pub own : waits_for_own async k ≡ true → b.cur_seq < completed
  pub last :
      waits_for_last async k ≡ true → b.have_pending_swap ≡ true → b.pending_swap_seq < completed

abbrev pub Waits : Bool → StubPc → Stub → ℕ → Type 0
Waits async (checking seq k) b completed = Target async seq k b
Waits async (reading seq k) b completed = Target async seq k b
Waits async (finishing k) b completed = Finished async k b completed
Waits async _ b completed = Unit

abbrev pub Returns : Bool → System → Type 0
Returns async s = Waits async s.stub.pc s.stub s.ring.completed_seq

module _ {n : ℕ} {async : Bool} where
  pub StubStep-Returns : {s t : System} → StubStep n async s t → Returns async s → Returns async t
  unfolding ring_reserve_slot store_needs store_published after_publish finish
  StubStep-Returns (begin e) inv = ground arith
  StubStep-Returns (reserved pid ctx head e low r) inv = ground arith
  StubStep-Returns (fill c e) inv = ground arith
  StubStep-Returns (send k e) inv = ground arith
  StubStep-Returns (publish e) inv = ground arith
  StubStep-Returns (see_awake e w) inv = ground arith
  StubStep-Returns (see_asleep e w) inv = ground arith
  StubStep-Returns (post e) inv = ground arith
  StubStep-Returns (see_done e h) inv = ground arith
  StubStep-Returns (see_undone e h) inv = ground arith
  StubStep-Returns (woken e h) inv = ground arith
  StubStep-Returns (return e) inv = ground arith

  pub ProxyStep-Returns :
      {s t : System} → ProxyStep n async s t → Counts n s → Returns async s → Returns async t
  unfolding run_handler release_data store_completed after_complete
  ProxyStep-Returns (see_work e h) counts inv = ground arith
  ProxyStep-Returns (see_none e h) counts inv = ground arith
  ProxyStep-Returns (arm e) counts inv = ground arith
  ProxyStep-Returns (see_work_armed e h) counts inv = ground arith
  ProxyStep-Returns (see_none_armed e h) counts inv = ground arith
  ProxyStep-Returns (wake e h) counts inv = ground arith
  ProxyStep-Returns (disarm e) counts inv = ground arith
  ProxyStep-Returns (dispatch reply e) counts inv = ground arith
  ProxyStep-Returns (release e) counts inv = ground arith
  ProxyStep-Returns (complete e) counts inv = ground arith
  ProxyStep-Returns (respond e) counts inv = ground arith
