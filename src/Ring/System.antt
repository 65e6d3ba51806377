-- ===== src/Ring/System.antt =====
-- The two processes over one ring, interleaved one shared access at a time. The accesses are
-- sequentially consistent here.
use webos_bridge_64to.Common.{
  ℕ, ◌+◌, ◌^◌, ◌≤◌, ◌<◌, ◌≡◌, ◌≢◌, Bool, false, some, List, [], ◌∷◌, update,
}
use webos_bridge_64to.Ring.Shared.{BridgeCtrl, Ring, slot_index, request_of}
use webos_bridge_64to.Ring.Stub.{
  Send, StubPc, idle, reserving, filling, publishing, published, posting, checking, reading,
  finishing, Stub, ring_reserve_slot, begin_slot, write_slot, store_needs, store_published,
  after_publish, finish,
}
use webos_bridge_64to.Ring.Proxy.{
  ProxyPc, top, arming, armed, sleeping, disarming, dispatching, releasing, completing, responding,
  Proxy, Reply, run_handler, release_data, store_completed, after_complete,
}

-- What has happened: the slot of each command as it was published, what the proxy dispatched (the
-- last first), and what its handler wrote back.
pub record History : Type 0 where
  pub sent : ℕ → BridgeCtrl
  pub dispatched : List BridgeCtrl
  pub replies : ℕ → Reply

pub record System : Type 0 where
  pub ring : Ring
  pub stub : Stub
  pub proxy : Proxy
  pub history : History

abbrev pub move_stub : StubPc → System → System
move_stub pc s = record s { stub = record (s.stub) { pc = pc } }

abbrev pub move_proxy : ProxyPc → System → System
move_proxy pc s = record s { proxy = record (s.proxy) { pc = pc } }

-- `n` is the number of slots, `async` the setting `async_swap`. A run ends before a sequence number
-- reaches 2 ^ 64 (`reserved`). Spinning and sleeping only repeat a load, and are left out.
module _ (n : ℕ) (async : Bool) where
  pub data StubStep (s : System) : System → Type 0 where
    begin : s.stub.pc ≡ idle → StubStep s (move_stub reserving s)
    reserved :
        (client_pid ctx data_head : ℕ) {b : Stub}
        → s.stub.pc ≡ reserving
        → s.stub.local_seq + 1 < 2 ^ 64
        → ring_reserve_slot n s.stub s.ring ≡ some b
        → StubStep s (record s {
          stub = b;
          ring =
              write_slot n b.cur_seq
                (begin_slot client_pid ctx data_head (s.ring.slots (slot_index n b.cur_seq)))
                (s.ring);
        })
    fill :
        (c : BridgeCtrl)
        → s.stub.pc ≡ filling
        → StubStep s (record s { ring = write_slot n s.stub.cur_seq c (s.ring) })
    send :
        (k : Send)
        → s.stub.pc ≡ filling
        → StubStep s (record s {
          stub = record (s.stub) { pc = publishing k };
          ring = store_needs n async k (s.stub) (s.ring);
        })
    publish :
        {k : Send}
        → s.stub.pc ≡ publishing k
        → StubStep s (record s {
          stub = record (s.stub) { pc = published k };
          ring = store_published (s.stub) (s.ring);
          history = record (s.history) {
            sent =
                update s.history.sent s.stub.cur_seq (s.ring.slots (slot_index n s.stub.cur_seq));
          };
        })
    see_awake :
        {k : Send}
        → s.stub.pc ≡ published k
        → s.ring.consumer_waiting ≡ 0
        → StubStep s (move_stub (after_publish async k (s.stub)) s)
    see_asleep :
        {k : Send}
        → s.stub.pc ≡ published k
        → s.ring.consumer_waiting ≢ 0
        → StubStep s (move_stub (posting k) s)
    post :
        {k : Send}
        → s.stub.pc ≡ posting k
        → StubStep s (record s {
          stub = record (s.stub) { pc = after_publish async k (s.stub) };
          ring = record (s.ring) { req_efd = s.ring.req_efd + 1 };
        })
    see_done :
        {seq : ℕ} {k : Send}
        → s.stub.pc ≡ checking seq k
        → seq < s.ring.completed_seq
        → StubStep s (move_stub (finishing k) s)
    see_undone :
        {seq : ℕ} {k : Send}
        → s.stub.pc ≡ checking seq k
        → s.ring.completed_seq ≤ seq
        → StubStep s (move_stub (reading seq k) s)
    woken :
        {seq : ℕ} {k : Send}
        → s.stub.pc ≡ reading seq k
        → 0 < s.ring.resp_efd
        → StubStep s (record s {
          stub = record (s.stub) { pc = checking seq k };
          ring = record (s.ring) { resp_efd = 0 };
        })
    return :
        {k : Send}
        → s.stub.pc ≡ finishing k
        → StubStep s (record s { stub = finish async k (s.stub) })

  pub data ProxyStep (s : System) : System → Type 0 where
    see_work :
        s.proxy.pc ≡ top
        → s.proxy.completed < s.ring.published_seq
        → ProxyStep s (move_proxy dispatching s)
    see_none :
        s.proxy.pc ≡ top
        → s.ring.published_seq ≤ s.proxy.completed
        → ProxyStep s (move_proxy arming s)
    arm :
        s.proxy.pc ≡ arming
        → ProxyStep s (record s {
          proxy = record (s.proxy) { pc = armed };
          ring = record (s.ring) { consumer_waiting = 1 };
        })
    see_work_armed :
        s.proxy.pc ≡ armed
        → s.proxy.completed < s.ring.published_seq
        → ProxyStep s (move_proxy disarming s)
    see_none_armed :
        s.proxy.pc ≡ armed
        → s.ring.published_seq ≤ s.proxy.completed
        → ProxyStep s (move_proxy sleeping s)
    wake :
        s.proxy.pc ≡ sleeping
        → 0 < s.ring.req_efd
        → ProxyStep s (record s {
          proxy = record (s.proxy) { pc = disarming };
          ring = record (s.ring) { req_efd = 0 };
        })
    disarm :
        s.proxy.pc ≡ disarming
        → ProxyStep s (record s {
          proxy = record (s.proxy) { pc = top };
          ring = record (s.ring) { consumer_waiting = 0 };
        })
    dispatch :
        (reply : Reply)
        → s.proxy.pc ≡ dispatching
        → ProxyStep s (record s {
          proxy = record (s.proxy) { pc = releasing };
          ring = run_handler n reply (s.proxy) (s.ring);
          history = record (s.history) {
            dispatched =
                request_of (s.ring.slots (slot_index n s.proxy.completed)) ∷ s.history.dispatched;
            replies = update s.history.replies s.proxy.completed reply;
          };
        })
    release :
        s.proxy.pc ≡ releasing
        → ProxyStep s (record s {
          proxy = record (s.proxy) {
            pc = completing (s.ring.slots (slot_index n s.proxy.completed)).needs_response;
          };
          ring = release_data n (s.proxy) (s.ring);
        })
    complete :
        {needs_resp : ℕ}
        → s.proxy.pc ≡ completing needs_resp
        → ProxyStep s (record s {
          proxy = after_complete needs_resp (s.proxy);
          ring = store_completed (s.proxy) (s.ring);
        })
    respond :
        s.proxy.pc ≡ responding
        → ProxyStep s (record s {
          proxy = record (s.proxy) { pc = top };
          ring = record (s.ring) { resp_efd = s.ring.resp_efd + 1 };
        })

  pub data Step (s : System) : System → Type 0 where
    by_stub : {t : System} → StubStep s t → Step s t
    by_proxy : {t : System} → ProxyStep s t → Step s t

-- A ring that has just been created; its slots hold what `memset` left.
abbrev pub empty_slot : BridgeCtrl
empty_slot = record {
  opcode = 0;
  needs_response = 0;
  args = [];
  args_len = 0;
  data_offset = 0;
  data_size = 0;
  data2_offset = 0;
  data2_size = 0;
  result = 0;
  result_buf_len = 0;
  client_pid = 0;
  data_watermark = 0;
  data_watermark_valid = 0;
  target_ctx = 0;
}

abbrev pub start_system : System
start_system = record {
  ring = record {
    published_seq = 0;
    completed_seq = 0;
    data_tail = 0;
    consumer_waiting = 0;
    result_buf = [];
    slots = λ _. empty_slot;
    req_efd = 0;
    resp_efd = 0;
  };
  stub = record {
    pc = idle;
    local_seq = 0;
    cur_seq = 0;
    pending_swap_seq = 0;
    have_pending_swap = false;
  };
  proxy = record { pc = top; completed = 0 };
  history = record {
    sent = λ _. empty_slot;
    dispatched = [];
    replies = λ _. record { value = 0; len = 0; buf = [] };
  };
}

pub data Reach (n : ℕ) (async : Bool) : System → Type 0 where
  start : Reach n async start_system
  later : {s t : System} → Reach n async s → Step n async s t → Reach n async t
