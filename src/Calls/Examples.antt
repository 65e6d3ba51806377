-- ===== src/Calls/Examples.antt =====
-- Tests of the delivery of calls, and the theorems at concrete inputs.
use webos_bridge_64to.Common.{◌≡◌, refl, some, none, arith, ℕ_discrete}
use webos_bridge_64to.Wire.Args.{ar_init, ar_u32, aw, aw_all, aw_init, aw_u32, load, store}
use webos_bridge_64to.Calls.Args.{
  CallSlot, entry, fill, in_call, in_locals, left_first, no_result, read_left, read_right,
  right_first, setup_scalar,
}
use webos_bridge_64to.Calls.Api
use webos_bridge_64to.Calls.Send.{send}
use webos_bridge_64to.Calls.Handlers.{dispatch_table}
use webos_bridge_64to.Calls.Handlers.State.{h_gl_viewport}
use webos_bridge_64to.Calls.Send.State.{send_gl_viewport}
use webos_bridge_64to.Calls.Deliver.{calls_arrive, dispatch}
use webos_bridge_64to.Calls.Order.{order_reverses}

code : Unit {0}
unfolding ℕ_discrete ar_init ar_u32 aw aw_all aw_init aw_u32 load store entry fill in_call in_locals
    no_result read_left read_right setup_scalar send dispatch_table dispatch h_gl_viewport
    send_gl_viewport
code = tt

abbrev slot : CallSlot
slot = record {
  opcode = 0;
  args = λ i. 255;
  args_len = 0;
  data_offset = 9;
  data_size = 9;
  data2_offset = 9;
  data2_size = 9;
  result = 9;
  result_buf_len = 9;
}

-- The slot of a call has no data, and its handler leaves the result.
slot_of_viewport : (fill (send (Api.gl_viewport 0 0 1920 1080)) slot).args_len ≡ 16
unfolding code
slot_of_viewport = refl

data_is_cleared : (fill (send (Api.gl_viewport 0 0 1920 1080)) slot).data_size ≡ 0
unfolding code
data_is_cleared = refl

viewport_runs :
    dispatch left_first (fill (send (Api.gl_viewport 0 0 1920 1080)) slot)
    ≡ some (Api.gl_viewport 0 0 1920 1080)
unfolding code
viewport_runs = refl

unknown_opcode : dispatch left_first slot ≡ none
unfolding code
unknown_opcode = refl

calls_arrive_example :
    dispatch left_first (fill (send (Api.gl_viewport 5 6 1920 1080)) slot)
    ≡ some (Api.gl_viewport 5 6 1920 1080)
unfolding send send_gl_viewport
calls_arrive_example =
    calls_arrive (Api.gl_viewport 5 6 1920 1080) slot
      (omega arith, (omega arith, (omega arith, (omega arith, tt))))

order_reverses_example :
    (dispatch right_first (fill (send (Api.gl_blend_func 1 2)) slot) ≡ some (Api.gl_blend_func 2 1))
    × (dispatch right_first (fill (send (Api.gl_scissor 1 2 3 4)) slot)
        ≡ some (Api.gl_scissor 4 3 2 1))
order_reverses_example =
    order_reverses 1 2 3 4 slot (omega arith) (omega arith) (omega arith) (omega arith)
