-- ===== src/Wl/Examples.antt =====
-- An exchange over the Wayland channel, and the theorems at its states.
use webos_bridge_64to.Common.{ℕ, ◌<◌, ◌≡◌, ◌≢◌, ◌⊎◌, Bool, true, refl, arith}
use webos_bridge_64to.Ring.Shared.{BridgeCtrl}
use webos_bridge_64to.Ring.System.{empty_slot}
use webos_bridge_64to.Wl.Channel.{
  wl_data_alloc, wl_bridge_begin, ask_for_response, wl_dispatch, WlReply,
}
use webos_bridge_64to.Wl.System.{
  waiting, polling, WlSystem, WlStep, begin, fill, send, post, woken, take_request, dispatch,
  respond, wl_start, WlReach, start, later,
}
use webos_bridge_64to.Wl.Exchange.{call_wl_returns_own_answer, wl_sides_alternate}

code : Unit {0}
unfolding wl_data_alloc wl_bridge_begin ask_for_response wl_dispatch
code = tt

-- Each request has a handler.
abbrev known : ℕ → Bool
known opcode = true

abbrev keymap : WlReply
keymap = record { result = 1; data_offset = 0; data_size = 4096 }

abbrev Run : Type 0
Run = (s : WlSystem) × WlReach 30 known s

abbrev next : (r : Run) → {t : WlSystem} → WlStep 30 known r.0 t → Run
next r {t} st = (t, later r.1 st)

abbrev request : BridgeCtrl
request = record empty_slot { opcode = 5 }

abbrev filled : Run
filled = next (next (wl_start 30 known, start) (begin refl)) (fill request 0 refl)

abbrev posted : Run
unfolding code
posted = next (next filled (send refl)) (post refl)

abbrev answered : Run
unfolding code
answered =
    next (next (next posted (take_request refl (omega arith))) (dispatch keymap refl))
      (respond refl)

abbrev returned : Run
unfolding code
returned = next answered (woken refl (omega arith))

call_wl_returns_own_answer_example :
    (returned.0.channel.ctrl ≡ wl_dispatch 30 known keymap returned.0.last)
    × (returned.0.served ≡ returned.0.sent)
unfolding code
call_wl_returns_own_answer_example = call_wl_returns_own_answer 30 known returned.0 returned.1 refl

wl_sides_alternate_example :
    (posted.0.proxy ≢ polling → posted.0.stub ≡ waiting)
    × (posted.0.stub ≡ waiting
        → posted.0.proxy ≡ polling
        → (0 < posted.0.channel.req_wl_efd) ⊎ (0 < posted.0.channel.resp_wl_efd))
wl_sides_alternate_example = wl_sides_alternate 30 known posted.0 posted.1
