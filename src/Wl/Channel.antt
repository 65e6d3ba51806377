-- ===== src/Wl/Channel.antt =====
-- stub/bridge_core.c: `wl_data_alloc`, `wl_bridge_begin` and `bridge_send_*_wl`; proxy/proxy.c: the body of
-- `wl_dispatch_thread`. `uint32_t` wraps at 2 ^ 32.
use webos_bridge_64to.Common.{
  ℕ, ◌+◌, ◌*◌, ◌/◌, ◌%◌, ◌^◌, ◌&&◌, Bool, Option, none, some, ltb, if◌then◌else◌,
}
use webos_bridge_64to.Arena.Alloc.{data_size}
use webos_bridge_64to.Ring.Shared.{BridgeCtrl}

-- `WLBridge`, with the counters of the eventfds.
pub record Channel : Type 0 where
  pub ctrl : BridgeCtrl
  pub data_pos : ℕ
  pub req_wl_efd : ℕ
  pub resp_wl_efd : ℕ

-- `wl_data_alloc` at a position: the offset and the new position; `none` is `abort()`. `x & ~3u` is `x / 4 * 4`.
unfoldable pub wl_data_alloc : ℕ → ℕ → Option (ℕ × ℕ)
wl_data_alloc size pos =
    let next = (pos + size % 2 ^ 32 + 3) % 2 ^ 32 / 4 * 4 in
    if ltb data_size next then none else some (pos, next)

unfoldable pub wl_bridge_begin : Channel → Channel
wl_bridge_begin ch = record ch { data_pos = 0 }

-- The part of `bridge_send_void_wl` and `bridge_send_call_wl` before the post.
unfoldable pub ask_for_response : Channel → Channel
ask_for_response ch = record ch { ctrl = record (ch.ctrl) { needs_response = 1 } }

-- What a handler writes back into the slot; one that does not write a field gives what it had.
pub record WlReply : Type 0 where
  pub result : ℕ
  pub data_offset : ℕ
  pub data_size : ℕ

-- The dispatch of one request: `known` says which entries of `wl_dispatch_table`, of `wl_max` entries, are not NULL.
unfoldable pub wl_dispatch : ℕ → (ℕ → Bool) → WlReply → BridgeCtrl → BridgeCtrl
wl_dispatch wl_max known reply c =
    if ltb 0 c.opcode && ltb c.opcode wl_max && known c.opcode
    then (record c {
      result = reply.result;
      data_offset = reply.data_offset;
      data_size = reply.data_size;
    })
    else c
