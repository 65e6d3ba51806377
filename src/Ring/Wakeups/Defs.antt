-- ===== src/Ring/Wakeups/Defs.antt =====
-- What the flag and the counters promise: the invariant.
use webos_bridge_64to.Common.{ℕ, ◌<◌, ◌≡◌, ◌≢◌, Bool, true, false}
use webos_bridge_64to.Ring.Shared.{BridgeCtrl, Ring, slot_index}
use webos_bridge_64to.Ring.Stub.{
  Send, StubPc, idle, reserving, filling, publishing, published, posting, checking, reading,
  finishing, needs_of,
}
use webos_bridge_64to.Ring.Proxy.{ProxyPc, armed, sleeping, disarming, completing, responding}
use webos_bridge_64to.Ring.System.{System}

-- `consumer_waiting`, as the proxy's stores leave it.
abbrev pub waiting : ProxyPc → ℕ
waiting armed = 1
waiting sleeping = 1
waiting disarming = 1
waiting _ = 0

-- The producer has published and will post `req_efd` if it sees the proxy asleep.
abbrev pub notifying : StubPc → Bool
notifying (published _) = true
notifying (posting _) = true
notifying _ = false

-- What the producer has asked for: the flag in its slot before the publication, and in the history
-- after it.
abbrev pub Asked : ℕ → Bool → StubPc → ℕ → Ring → (ℕ → BridgeCtrl) → Type 0
Asked n async idle cur r sent = Unit
Asked n async reserving cur r sent = Unit
Asked n async filling cur r sent = Unit
Asked n async (publishing k) cur r sent =
    (r.slots (slot_index n cur)).needs_response ≡ needs_of async k
Asked n async (published k) cur r sent = (sent cur).needs_response ≡ needs_of async k
Asked n async (posting k) cur r sent = (sent cur).needs_response ≡ needs_of async k
Asked n async (checking seq k) cur r sent = (sent cur).needs_response ≡ needs_of async k
Asked n async (reading seq k) cur r sent = (sent cur).needs_response ≡ needs_of async k
Asked n async (finishing k) cur r sent = (sent cur).needs_response ≡ needs_of async k

-- A command that was published with the request for a post of `resp_efd`.
abbrev pub IsPosting : (ℕ → BridgeCtrl) → ℕ → ℕ → Type 0
IsPosting sent last seq = (seq < last) × ((sent seq).needs_response ≢ 0)

abbrev pub Awaited : StubPc → (ℕ → BridgeCtrl) → ℕ → Type 0
Awaited (checking seq k) sent last = IsPosting sent last seq
Awaited (reading seq k) sent last = IsPosting sent last seq
Awaited _ sent last = Unit

-- What the proxy has read from the slot that it is completing.
abbrev pub Owed : ProxyPc → BridgeCtrl → Type 0
Owed (completing needs_resp) c = needs_resp ≡ c.needs_response
Owed _ c = Unit

pub record Wakeups (n : ℕ) (async : Bool) (s : System) : Type 0 where
  pub flag : s.ring.consumer_waiting ≡ waiting s.proxy.pc
  pub asked : Asked n async s.stub.pc s.stub.cur_seq s.ring s.history.sent
  pub pending :
      s.stub.have_pending_swap ≡ true
      → IsPosting s.history.sent s.ring.published_seq s.stub.pending_swap_seq
  pub awaited : Awaited s.stub.pc s.history.sent s.ring.published_seq
  pub owed : Owed s.proxy.pc (s.history.sent s.proxy.completed)
  pub request :
      s.proxy.pc ≡ sleeping
      → notifying s.stub.pc ≡ false
      → s.proxy.completed < s.ring.published_seq
      → 0 < s.ring.req_efd
  pub response :
      (seq : ℕ) (k : Send)
      → s.stub.pc ≡ reading seq k
      → seq < s.ring.completed_seq
      → s.proxy.pc ≢ responding
      → 0 < s.ring.resp_efd
