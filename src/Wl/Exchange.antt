-- ===== src/Wl/Exchange.antt =====
-- The exchange of requests and answers over the Wayland channel of stub/bridge_core.c and proxy/proxy.c.
use webos_bridge_64to.Common.{ℕ, ◌<◌, ◌≡◌, ◌≢◌, ◌⊎◌, Bool, ◌∷◌, arith, refl}
use webos_bridge_64to.Wl.Channel.{wl_bridge_begin, ask_for_response, wl_dispatch}
use webos_bridge_64to.Wl.System.{
  WlStubPc, idle, filling, posting, waiting, returning, WlProxyPc, polling, dispatching, responding,
  WlSystem, WlStep, begin, fill, send, post, woken, return, take_request, dispatch, respond,
  WlReach, start, later,
}

module _ (wl_max : ℕ) (known : ℕ → Bool) where
  -- Which of the two sides has the channel.
  abbrev Quiet : WlSystem → Type 0
  Quiet s = (s.channel.req_wl_efd ≡ 0) × (s.channel.resp_wl_efd ≡ 0) × (s.served ≡ s.sent)

  abbrev Open : WlSystem → Type 0
  Open s =
      (s.channel.ctrl.needs_response ≡ 1) × (s.channel.ctrl ≡ s.last) × (s.sent ≡ s.last ∷ s.served)

  abbrev Answered : WlSystem → Type 0
  Answered s = (s.served ≡ s.sent) × (s.channel.ctrl ≡ wl_dispatch wl_max known s.reply s.last)

  abbrev Fits : WlStubPc → WlProxyPc → WlSystem → Type 0
  Fits idle polling s = Quiet s
  Fits filling polling s = Quiet s
  Fits posting polling s = Quiet s × (s.channel.ctrl.needs_response ≡ 1)
  Fits waiting polling s =
      ((s.channel.req_wl_efd ≡ 1) × (s.channel.resp_wl_efd ≡ 0) × Open s)
      ⊎ ((s.channel.req_wl_efd ≡ 0) × (s.channel.resp_wl_efd ≡ 1) × Answered s)
  Fits waiting dispatching s = (s.channel.req_wl_efd ≡ 0) × (s.channel.resp_wl_efd ≡ 0) × Open s
  Fits waiting responding s = (s.channel.req_wl_efd ≡ 0) × (s.channel.resp_wl_efd ≡ 0) × Answered s
  Fits returning polling s = (s.channel.req_wl_efd ≡ 0) × (s.channel.resp_wl_efd ≡ 0) × Answered s
  Fits _ _ s = ⊥

  WlStep-Fits :
      {s t : WlSystem} → WlStep wl_max known s t → Fits s.stub s.proxy s → Fits t.stub t.proxy t
  unfolding wl_bridge_begin ask_for_response
  WlStep-Fits (begin e) inv = ground arith
  WlStep-Fits (fill c pos e) inv = ground arith
  WlStep-Fits (send e) inv = ground arith
  WlStep-Fits (post e) inv = ground arith
  WlStep-Fits (woken e h) inv = ground arith
  WlStep-Fits (return e) inv = ground arith
  WlStep-Fits (take_request e h) inv = ground arith
  WlStep-Fits (dispatch reply e) inv = ground arith
  WlStep-Fits (respond e) inv = ground arith

  Reach-Fits : {s : WlSystem} → WlReach wl_max known s → Fits s.stub s.proxy s
  Reach-Fits start = (refl, refl, refl)
  Reach-Fits (later r st) = WlStep-Fits st (Reach-Fits r)

  -- Whatever the interleaving, and whatever the handlers write back, when `bridge_send_call_wl` or
  -- `bridge_send_void_wl` has been woken, the slot is the very request that it posted, with the result, data offset
  -- and data size that its own handler wrote back, if it has one; and every posted request has been dispatched
  -- once, in order.
  pub call_wl_returns_own_answer :
      (s : WlSystem)
      → WlReach wl_max known s
      → s.stub ≡ returning
      → (s.channel.ctrl ≡ wl_dispatch wl_max known s.reply s.last) × (s.served ≡ s.sent)
  call_wl_returns_own_answer s run e = let fits = Reach-Fits run in ground (arith, fits)

  -- Whatever the interleaving, the proxy has the slot only while the stub waits; and while the stub waits and the
  -- proxy polls, one of the two eventfds is positive, so that one side goes on.
  pub wl_sides_alternate :
      (s : WlSystem)
      → WlReach wl_max known s
      → (s.proxy ≢ polling → s.stub ≡ waiting)
        × (s.stub ≡ waiting
            → s.proxy ≡ polling
            → (0 < s.channel.req_wl_efd) ⊎ (0 < s.channel.resp_wl_efd))
  wl_sides_alternate s run =
      let fits = Reach-Fits run in (ground (arith, fits), ground (arith, fits))
