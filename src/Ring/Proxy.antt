-- ===== src/Ring/Proxy.antt =====
-- proxy/proxy.c: the dispatch loop of `main`, the only consumer of the ring.
use webos_bridge_64to.Common.{ℕ, ◌+◌, List, ◌==◌, if◌then◌else◌, update}
use webos_bridge_64to.Ring.Shared.{u64, Ring, slot_index}

-- Where the loop stands.
pub data ProxyPc : Type 0 where
  top : ProxyPc  -- before it loads `published_seq`
  arming : ProxyPc  -- caught up, before it stores `consumer_waiting = 1`
  armed : ProxyPc  -- before it loads `published_seq` again
  sleeping : ProxyPc  -- in `read(req_efd)`
  disarming : ProxyPc  -- before it stores `consumer_waiting = 0`
  dispatching : ProxyPc  -- before the handler runs
  releasing : ProxyPc  -- before the store of `data_tail`
  completing : (needs_resp : ℕ) → ProxyPc  -- before the store of `completed_seq`
  responding : ProxyPc  -- before `write(resp_efd)`

pub record Proxy : Type 0 where
  pub pc : ProxyPc
  pub completed : ℕ

-- What a handler writes back: `C->result`, `C->result_buf_len` and the ring's result buffer.
pub record Reply : Type 0 where
  pub value : ℕ
  pub len : ℕ
  pub buf : List ℕ

-- The call through `dispatch_table`. An invalid opcode leaves the slot as it is, which is a reply too.
unfoldable pub run_handler : ℕ → Reply → Proxy → Ring → Ring
run_handler ring_slots reply x r =
    let i = slot_index ring_slots x.completed in
    record r {
      slots =
          update r.slots i
            (record (r.slots i) { result = reply.value; result_buf_len = reply.len });
      result_buf = reply.buf;
    }

-- `if (c->data_watermark_valid) data_tail = c->data_watermark`
unfoldable pub release_data : ℕ → Proxy → Ring → Ring
release_data ring_slots x r =
    let c = r.slots (slot_index ring_slots x.completed) in
    record r { data_tail = if c.data_watermark_valid == 0 then r.data_tail else c.data_watermark }

-- `completed++`, and its store.
unfoldable pub store_completed : Proxy → Ring → Ring
store_completed x r = record r { completed_seq = u64 (x.completed + 1) }

unfoldable pub after_complete : ℕ → Proxy → Proxy
after_complete needs_resp x = record x {
  pc = if needs_resp == 0 then top else responding;
  completed = u64 (x.completed + 1);
}
