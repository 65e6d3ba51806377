-- ===== src/Calls/Order.antt =====
-- The handlers that read the arguments within the call, compiled so that the last is evaluated first.
use webos_bridge_64to.Common.{ℕ, ◌^◌, ◌<◌, ◌≡◌, some}
use webos_bridge_64to.Calls.Args.{
  CallSlot, entry, fill, in_call, read_left, read_right, right_first, setup_scalar,
}
use webos_bridge_64to.Calls.Api
use webos_bridge_64to.Calls.Send.{send}
use webos_bridge_64to.Calls.Send.State.{send_gl_blend_func, send_gl_scissor}
use webos_bridge_64to.Calls.Handlers.{dispatch_table}
use webos_bridge_64to.Calls.Handlers.State.{h_gl_blend_func, h_gl_scissor}
use webos_bridge_64to.Calls.Deliver.{dispatch, filled_args}

-- Compiled so that the last argument of a call is evaluated first, which C allows, the handler of
-- `glBlendFunc` passes its two factors to the driver in the other order, and the handler of `glScissor`
-- its four numbers from the last to the first, whatever numbers of 32 bits they are.
pub order_reverses :
    (x y w h : ℕ) (slot : CallSlot)
    → x < 2 ^ 32
    → y < 2 ^ 32
    → w < 2 ^ 32
    → h < 2 ^ 32
    → (dispatch right_first (fill (send (Api.gl_blend_func x y)) slot)
        ≡ some (Api.gl_blend_func y x))
      × (dispatch right_first (fill (send (Api.gl_scissor x y w h)) slot)
          ≡ some (Api.gl_scissor h w y x))
unfolding send dispatch dispatch_table entry in_call read_left read_right send_gl_blend_func
    send_gl_scissor h_gl_blend_func h_gl_scissor setup_scalar fill
order_reverses x y w h slot xs ys ws hs =
    let two = filled_args (send (Api.gl_blend_func x y)) slot (xs, (ys, tt)) in
    let four = filled_args (send (Api.gl_scissor x y w h)) slot (xs, (ys, (ws, (hs, tt)))) in
    (cc, cc)
