-- ===== src/Wl/System.antt =====
-- The stub and the proxy's Wayland thread over the channel, one shared access at a time. `g_wl.lock` lets one
-- thread of the program at a time be anywhere but `idle`.
use webos_bridge_64to.Common.{ℕ, ◌+◌, ◌<◌, ◌≡◌, Bool, List, [], ◌∷◌, ◌==◌, if◌then◌else◌}
use webos_bridge_64to.Ring.Shared.{BridgeCtrl}
use webos_bridge_64to.Ring.System.{empty_slot}
use webos_bridge_64to.Wl.Channel.{Channel, WlReply, wl_bridge_begin, ask_for_response, wl_dispatch}

pub data WlStubPc : Type 0 where
  idle : WlStubPc
  filling : WlStubPc  -- between `wl_bridge_begin` and `bridge_send_*_wl`
  posting : WlStubPc  -- before `efd_post(req_wl_efd)`
  waiting : WlStubPc  -- in `efd_wait(resp_wl_efd)`
  returning : WlStubPc  -- after it, before `wl_bridge_end`

pub data WlProxyPc : Type 0 where
  polling : WlProxyPc  -- in `poll` and the read of `req_wl_efd`
  dispatching : WlProxyPc
  responding : WlProxyPc  -- before `write(resp_wl_efd)`

-- `sent` and `served` are the requests as they were posted and dispatched, the last first; `last` is the last
-- posted one, and `reply` what the handler of the last dispatched one wrote back, whatever state it reads.
pub record WlSystem : Type 0 where
  pub channel : Channel
  pub stub : WlStubPc
  pub proxy : WlProxyPc
  pub sent : List BridgeCtrl
  pub served : List BridgeCtrl
  pub last : BridgeCtrl
  pub reply : WlReply

module _ (wl_max : ℕ) (known : ℕ → Bool) where
  pub data WlStep (s : WlSystem) : WlSystem → Type 0 where
    begin :
        s.stub ≡ idle
        → WlStep s (record s { stub = filling; channel = wl_bridge_begin (s.channel) })
    fill :
        (c : BridgeCtrl) (pos : ℕ)
        → s.stub ≡ filling
        → WlStep s (record s { channel = record (s.channel) { ctrl = c; data_pos = pos } })
    send :
        s.stub ≡ filling
        → WlStep s (record s { stub = posting; channel = ask_for_response (s.channel) })
    post :
        s.stub ≡ posting
        → WlStep s (record s {
          stub = waiting;
          channel = record (s.channel) { req_wl_efd = s.channel.req_wl_efd + 1 };
          sent = s.channel.ctrl ∷ s.sent;
          last = s.channel.ctrl;
        })
    woken :
        s.stub ≡ waiting
        → 0 < s.channel.resp_wl_efd
        → WlStep s (record s { stub = returning; channel = record (s.channel) { resp_wl_efd = 0 } })
    return : s.stub ≡ returning → WlStep s (record s { stub = idle })
    take_request :
        s.proxy ≡ polling
        → 0 < s.channel.req_wl_efd
        → WlStep s
            (record s { proxy = dispatching; channel = record (s.channel) { req_wl_efd = 0 } })
    dispatch :
        (reply : WlReply)
        → s.proxy ≡ dispatching
        → WlStep s (record s {
          proxy = if s.channel.ctrl.needs_response == 0 then polling else responding;
          channel = record (s.channel) { ctrl = wl_dispatch wl_max known reply (s.channel.ctrl) };
          served = s.channel.ctrl ∷ s.served;
          reply = reply;
        })
    respond :
        s.proxy ≡ responding
        → WlStep s (record s {
          proxy = polling;
          channel = record (s.channel) { resp_wl_efd = s.channel.resp_wl_efd + 1 };
        })

  abbrev pub wl_start : WlSystem
  wl_start = record {
    channel = record { ctrl = empty_slot; data_pos = 0; req_wl_efd = 0; resp_wl_efd = 0 };
    stub = idle;
    proxy = polling;
    sent = [];
    served = [];
    last = empty_slot;
    reply = record { result = 0; data_offset = 0; data_size = 0 };
  }

  pub data WlReach : WlSystem → Type 0 where
    start : WlReach wl_start
    later : {s t : WlSystem} → WlReach s → WlStep s t → WlReach t
