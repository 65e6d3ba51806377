-- ===== src/Ring/Shared.antt =====
-- include/gles_bridge_protocol.h: the shared memory segment of the ring, and the two eventfds.
use webos_bridge_64to.Common.{ℕ, ◌%◌, ◌^◌, List, bit_and}
use webos_bridge_64to.Config.Slots.{mask_of_slots}

abbrev pub u64 : ℕ → ℕ
u64 n = n % 2 ^ 64

-- `BridgeCtrl`: one command slot, without `proxy_pid`, which nothing uses there.
pub record BridgeCtrl : Type 0 where
  pub opcode : ℕ
  pub needs_response : ℕ
  pub args : List ℕ
  pub args_len : ℕ
  pub data_offset : ℕ
  pub data_size : ℕ
  pub data2_offset : ℕ
  pub data2_size : ℕ
  pub result : ℕ
  pub result_buf_len : ℕ
  pub client_pid : ℕ
  pub data_watermark : ℕ
  pub data_watermark_valid : ℕ
  pub target_ctx : ℕ

-- `BridgeRing`, with the counters of the eventfds that the processes share, and without the process ids and
-- `sync_done_gen`.
pub record Ring : Type 0 where
  pub published_seq : ℕ
  pub completed_seq : ℕ
  pub data_tail : ℕ
  pub consumer_waiting : ℕ
  pub result_buf : List ℕ
  pub slots : ℕ → BridgeCtrl
  pub req_efd : ℕ
  pub resp_efd : ℕ

-- `seq & g_ring_mask`
abbrev pub slot_index : ℕ → ℕ → ℕ
slot_index ring_slots seq = bit_and seq (mask_of_slots ring_slots)

-- What the stub asks for: the slot without what the proxy writes back.
abbrev pub request_of : BridgeCtrl → BridgeCtrl
request_of c = record c { result = 0; result_buf_len = 0 }
