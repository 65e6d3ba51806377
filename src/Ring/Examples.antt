-- ===== src/Ring/Examples.antt =====
-- Runs of the ring on concrete commands, and the theorems at their states.
use webos_bridge_64to.Common.{
  ℕ, ◌<◌, ◌≤◌, ◌≡◌, ◌≢◌, Bool, true, false, refl, [], ◌∷◌, arith, inr, ℕ_discrete,
}
use webos_bridge_64to.Config.Slots.{
  is_pow2, round_up_pow2, clamp_slots, slots_of_setting, mask_of_slots,
}
use webos_bridge_64to.Ring.Shared.{slot_index}
use webos_bridge_64to.Ring.Stub.{
  void, call, swap, ring_reserve_slot, begin_slot, needs_of, store_needs, store_published,
  after_publish, finish,
}
use webos_bridge_64to.Ring.Proxy.{Reply, run_handler, release_data, store_completed, after_complete}
use webos_bridge_64to.Ring.System.{
  System, StubStep, ProxyStep, by_stub, by_proxy, Reach, start_system, start, later, begin,
  reserved, send, publish, see_awake, see_asleep, post, respond, see_none, see_none_armed, arm,
  see_done, see_undone, return, see_work, dispatch, release, complete,
}
use webos_bridge_64to.Ring.Contents.{requests, Holds}
use webos_bridge_64to.Ring.Order.{dispatched_in_order, filled_slot_is_free}
use webos_bridge_64to.Ring.Blocking.{ProxyBlocked, never_both_blocked, no_wakeup_is_lost}
use webos_bridge_64to.Ring.Frames.{publishes_swap, was_swap}
use webos_bridge_64to.Ring.Replies.{call_returns_own_reply, one_frame_in_flight}

code : Unit {0}
unfolding ℕ_discrete is_pow2 round_up_pow2 clamp_slots slots_of_setting mask_of_slots
    ring_reserve_slot begin_slot needs_of store_needs store_published after_publish finish
    run_handler release_data store_completed after_complete requests publishes_swap was_swap
code = tt

abbrev n : ℕ
n = slots_of_setting 64

abbrev Run : Bool → Type 0
Run async = (s : System) × Reach n async s

abbrev by_the_stub :
    {async : Bool} → (r : Run async) → {t : System} → StubStep n async (r.0) t → Run async
by_the_stub r {t} st = (t, later r.1 (by_stub st))

abbrev by_the_proxy :
    {async : Bool} → (r : Run async) → {t : System} → ProxyStep n async (r.0) t → Run async
by_the_proxy r {t} st = (t, later r.1 (by_proxy st))

abbrev at_start : {async : Bool} → Run async
at_start = (start_system, start)

abbrev reserved_once : Run false
unfolding code
reserved_once =
    by_the_stub (by_the_stub at_start (begin refl)) (reserved 7 1 0 refl (omega arith) refl)

abbrev void_sent : Run false
unfolding code
void_sent =
    by_the_stub (by_the_stub (by_the_stub reserved_once (send void refl)) (publish refl))
      (see_awake refl refl)

abbrev reserved_twice : Run false
unfolding code
reserved_twice =
    by_the_stub (by_the_stub void_sent (begin refl)) (reserved 7 1 0 refl (omega arith) refl)

abbrev about_to_dispatch : Run false
unfolding code
about_to_dispatch = by_the_proxy reserved_twice (see_work refl (omega arith))

dispatched_in_order_example :
    (about_to_dispatch.0.history.dispatched ≡ requests about_to_dispatch.0.history.sent 0)
    × (0 ≤ 1)
    × (1 ≤ 64)
unfolding code
dispatched_in_order_example = dispatched_in_order 64 about_to_dispatch.1

filled_slot_is_free_example : slot_index n reserved_twice.0.stub.cur_seq ≢ slot_index n 0
unfolding code
filled_slot_is_free_example =
    filled_slot_is_free 64 reserved_twice.1 0 refl (omega arith) (omega arith)

abbrev call_sent : Run false
unfolding code
call_sent =
    by_the_stub (by_the_stub (by_the_stub reserved_once (send call refl)) (publish refl))
      (see_awake refl refl)

abbrev call_waits : Run false
unfolding code
call_waits = by_the_stub call_sent (see_undone refl (omega arith))

never_both_blocked_example : ¬ ProxyBlocked (call_waits.0)
unfolding code
never_both_blocked_example = never_both_blocked 64 call_waits.1 (inr (0, call, refl, refl))

abbrev answer : Reply
answer = record { value = 42; len = 3; buf = 9 ∷ [] }

abbrev call_answered : Run false
unfolding code
call_answered =
    by_the_proxy
      (by_the_proxy
        (by_the_proxy (by_the_proxy call_sent (see_work refl (omega arith))) (dispatch answer refl))
        (release refl))
      (complete refl)

abbrev call_done : Run false
unfolding code
call_done = by_the_stub call_answered (see_done refl (omega arith))

-- The proxy went to sleep on the empty ring before the command was published, and the stub has posted.
abbrev asleep_and_posted : Run false
unfolding code
asleep_and_posted =
    let asleep =
      by_the_proxy
        (by_the_proxy (by_the_proxy reserved_once (see_none refl (omega arith))) (arm refl))
        (see_none_armed refl (omega arith)) in
    by_the_stub
      (by_the_stub (by_the_stub (by_the_stub asleep (send call refl)) (publish refl))
        (see_asleep refl (omega arith)))
      (post refl)

-- The stub went to sleep before the proxy completed its command, and the proxy has responded.
abbrev reading_and_released : Run false
unfolding code
reading_and_released =
    by_the_proxy
      (by_the_proxy (by_the_proxy call_waits (see_work refl (omega arith))) (dispatch answer refl))
      (release refl)

abbrev reading_and_completed : Run false
unfolding code
reading_and_completed = by_the_proxy reading_and_released (complete {needs_resp = 1} refl)

abbrev reading_and_answered : Run false
unfolding code
reading_and_answered = by_the_proxy reading_and_completed (respond refl)

no_wakeup_is_lost_example :
    (0 < asleep_and_posted.0.ring.req_efd) × (0 < reading_and_answered.0.ring.resp_efd)
unfolding code
no_wakeup_is_lost_example = (
  (no_wakeup_is_lost 64 asleep_and_posted.1).0 refl refl (omega arith),
  (no_wakeup_is_lost 64 reading_and_answered.1).1 0 call refl (omega arith) (ground arith),
)

call_returns_own_reply_example :
    Holds
      (call_done.0.ring)
      (call_done.0.ring.slots (slot_index n 0))
      (call_done.0.history.replies 0)
unfolding code
call_returns_own_reply_example = call_returns_own_reply 64 call_done.1 call refl refl

abbrev first_swap : Run true
unfolding code
first_swap =
    let reserved_swap =
      by_the_stub (by_the_stub at_start (begin refl)) (reserved 7 1 0 refl (omega arith) refl) in
    by_the_stub
      (by_the_stub (by_the_stub (by_the_stub reserved_swap (send swap refl)) (publish refl))
        (see_awake refl refl))
      (return refl)

abbrev second_swap : Run true
unfolding code
second_swap =
    let reserved_swap =
      by_the_stub (by_the_stub first_swap (begin refl)) (reserved 7 1 0 refl (omega arith) refl) in
    by_the_stub (by_the_stub (by_the_stub reserved_swap (send swap refl)) (publish refl))
      (see_awake refl refl)

abbrev first_frame_done : Run true
unfolding code
first_frame_done =
    by_the_stub
      (by_the_proxy
        (by_the_proxy
          (by_the_proxy (by_the_proxy second_swap (see_work refl (omega arith)))
            (dispatch answer refl))
          (release refl))
        (complete refl))
      (see_done refl (omega arith))

one_frame_in_flight_example : 0 < first_frame_done.0.ring.completed_seq
unfolding code
one_frame_in_flight_example = one_frame_in_flight 64 first_frame_done.1 refl 0 refl (ground arith)
