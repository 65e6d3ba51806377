-- ===== src/Ring/Stub.antt =====
-- stub/bridge_core.c: the producer. `g_lock` lets one thread at a time be anywhere but `idle`, so
-- the threads are one producer here. Each shared access of the source is one step of the system.
use webos_bridge_64to.Common.{
  ℕ, ◌+◌, ◌-◌, ◌^◌, Bool, true, Option, none, some, ltb, if◌then◌else◌, update,
}
use webos_bridge_64to.Ring.Shared.{u64, BridgeCtrl, Ring, slot_index}

-- `bridge_send_void`, `bridge_send_call`, `bridge_send_swap`
pub data Send : Type 0 where
  void call swap : Send

-- Where the producer stands; `seq` is the argument of `wait_completed`.
pub data StubPc : Type 0 where
  idle : StubPc  -- outside `bridge_begin` … `bridge_send_*`
  reserving : StubPc  -- in `ring_reserve_slot`, before it loads `completed_seq`
  filling : StubPc  -- between `bridge_begin` and `bridge_send_*`
  publishing : Send → StubPc  -- in `publish_cur`, before it stores `published_seq`
  published : Send → StubPc  -- before it loads `consumer_waiting`
  posting : Send → StubPc  -- before `efd_post(req_efd)`
  checking : (seq : ℕ) → Send → StubPc  -- in `wait_completed`, before it loads `completed_seq`
  reading : (seq : ℕ) → Send → StubPc  -- in `efd_wait(resp_efd)`
  finishing : Send → StubPc  -- after the wait

-- The producer's own variables.
pub record Stub : Type 0 where
  pub pc : StubPc
  pub local_seq : ℕ
  pub cur_seq : ℕ
  pub pending_swap_seq : ℕ
  pub have_pending_swap : Bool

-- One round of the loop in `ring_reserve_slot`; `none` is a full ring.
unfoldable pub ring_reserve_slot : ℕ → Stub → Ring → Option Stub
ring_reserve_slot ring_slots b r =
    if ltb (u64 (b.local_seq + 2 ^ 64 - r.completed_seq)) ring_slots
    then some (record b { pc = filling; local_seq = u64 (b.local_seq + 1); cur_seq = b.local_seq })
    else none

-- What `bridge_begin` stores in the slot that it has reserved.
unfoldable pub begin_slot : (client_pid ctx data_head : ℕ) → BridgeCtrl → BridgeCtrl
begin_slot client_pid ctx data_head c = record c {
  client_pid = client_pid;
  target_ctx = ctx;
  data_watermark = data_head;
  data_watermark_valid = 0;
  result_buf_len = 0;
}

-- The argument of `publish_cur`.
unfoldable pub needs_of : Bool → Send → ℕ
needs_of async void = 0
needs_of async call = 1
needs_of async swap = if async then 2 else 1

abbrev pub write_slot : ℕ → ℕ → BridgeCtrl → Ring → Ring
write_slot ring_slots seq c r = record r { slots = update r.slots (slot_index ring_slots seq) c }

-- `publish_cur` up to the store of `published_seq`.
unfoldable pub store_needs : ℕ → Bool → Send → Stub → Ring → Ring
store_needs ring_slots async send b r =
    let c = r.slots (slot_index ring_slots b.cur_seq) in
    write_slot ring_slots b.cur_seq (record c { needs_response = needs_of async send }) r

unfoldable pub store_published : Stub → Ring → Ring
store_published b r = record r { published_seq = u64 (b.cur_seq + 1) }

-- What `bridge_send_*` does after `publish_cur`: it returns, waits for its own command, or waits for
-- the swap before.
unfoldable pub after_publish : Bool → Send → Stub → StubPc
after_publish async void b = idle
after_publish async call b = checking b.cur_seq call
after_publish async swap b =
    if async
    then if b.have_pending_swap then checking b.pending_swap_seq swap else finishing swap
    else checking b.cur_seq swap

-- The end of `bridge_send_call` and `bridge_send_swap`.
unfoldable pub finish : Bool → Send → Stub → Stub
finish async void b = record b { pc = idle }
finish async call b = record b { pc = idle }
finish async swap b =
    if async
    then record b { pc = idle; pending_swap_seq = b.cur_seq; have_pending_swap = true }
    else record b { pc = idle }
