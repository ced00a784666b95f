-- ===== src/Bus/Tests.antt =====
-- A bus over a queue of two events, a subscriber that posts, and one that does not.
use flowio_waveshare_qwiic.Prelude.{
  ℕ, Bool, true, false, Option, none, some, List, [], ◌∷◌, ◌++◌, ◌≡◌, ◌==◌, ◌≤◌, ◌<◌, ltb, length,
  refl, ap, arith, if◌then◌else◌, replicate,
}
use flowio_waveshare_qwiic.Bus.Types.{Queued, Subscriber, RejectInfo, QueueOps, Bus}
use flowio_waveshare_qwiic.Bus.Posting.{post, subscribe, queued_event, count_ok}
use flowio_waveshare_qwiic.Bus.Dispatch.{
  Call, Posted, dispatch, dispatch_loop, dispatch_one, run_calls, post_each, roll_window,
}
use flowio_waveshare_qwiic.Bus.Laws.{IsFifo, dispatch-IsFifo}

unfoldable list_send : ℕ → List Queued → Queued → List Queued × Bool
list_send room q e = if ltb (length q) room then (q ++ (e ∷ []), true) else (q, false)

unfoldable list_receive : List Queued → List Queued × Option Queued
list_receive [] = ([], none)
list_receive (e ∷ es) = (es, some e)

list_send-room :
    (room : ℕ) (q : List Queued) (e : Queued)
    → length q < room
    → ((list_send room q e).1 ≡ true) × ((list_send room q e).0 ≡ q ++ (e ∷ []))
unfolding list_send
list_send-room room q e h = (ground arith, ground arith)

list_send-full :
    (room : ℕ) (q : List Queued) (e : Queued)
    → room ≤ length q
    → ((list_send room q e).1 ≡ false) × ((list_send room q e).0 ≡ q)
unfolding list_send
list_send-full room q e h = (ground arith, ground arith)

list_receive-empty :
    (q : List Queued) → q ≡ [] → ((list_receive q).1 ≡ none) × ((list_receive q).0 ≡ [])
unfolding list_receive
list_receive-empty q h = (ap (λ l. (list_receive l).1) h, ap (λ l. (list_receive l).0) h)

list_receive-next :
    (q : List Queued) (e : Queued) (es : List Queued)
    → q ≡ e ∷ es
    → ((list_receive q).1 ≡ some e) × ((list_receive q).0 ≡ es)
unfolding list_receive
list_receive-next q e es h = (ap (λ l. (list_receive l).1) h, ap (λ l. (list_receive l).0) h)

abbrev two_events : QueueOps
two_events = record {
  Queue = List Queued;
  capacity = 2;
  waiting = λ q. q;
  send = list_send 2;
  receive = list_receive;
  send_room = list_send-room 2;
  send_full = list_send-full 2;
  receive_empty = list_receive-empty;
  receive_next = list_receive-next;
}

-- The callback 7 posts the event 2, with one byte.
unfoldable reaction : Call → List Posted
reaction k = if k.cb == 7 then (record { id = 2; payload = some (9 ∷ []); len = 1 } ∷ []) else []

abbrev waiting_now : List Queued
waiting_now =
    record { id = 1; len = 0; bytes = none } ∷ record { id = 3; len = 0; bytes = none } ∷ []

abbrev two_subscribers : List Subscriber
two_subscribers = record { id = 1; cb = 7; user = 0 } ∷ record { id = 2; cb = 8; user = 5 } ∷ []

abbrev no_reject : RejectInfo
no_reject = record { seq = 0; ts_ms = 0; event_id = 0; cb = 0; user = 0; reason = 0 }

abbrev busy : Bus two_events
busy = record {
  subs = two_subscribers;
  max_subscribers = 50;
  queue = some waiting_now;
  stats = record {
    ok_total = 2;
    drop_total = 0;
    drop_from_isr_total = 0;
    drop_too_large_total = 0;
    drop_no_queue_total = 0;
    win_start_ms = 1;
    win_drop_count = 0;
    win_current_drop_burst = 0;
    win_max_drop_burst = 0;
  };
  rejects = record {
    total = 0;
    null_cb_total = 0;
    capacity_total = 0;
    ring = replicate 8 no_reject;
    write_idx = 0;
  };
}

-- The event that the first callback posts is delivered in the same dispatch.
busy_calls :
    (dispatch two_events reaction 100 8 busy).2
    ≡ record { cb = 7; user = 0; id = 1; payload = none; len = 0 }
      ∷ record { cb = 8; user = 5; id = 2; payload = some (9 ∷ []); len = 1 }
      ∷ []
unfolding dispatch dispatch_loop dispatch_one run_calls post_each post queued_event reaction
    list_send list_receive roll_window count_ok
busy_calls = refl

full_drops : (post two_events false 4 none 0 busy).1 ≡ false
unfolding post list_send
full_drops = refl

null_callback : (subscribe two_events 100 1 0 0 busy).1 ≡ false
unfolding subscribe
null_callback = refl

dispatch-IsFifo_example :
    IsFifo two_events reaction 8 two_subscribers waiting_now
      (dispatch two_events reaction 100 8 busy)
dispatch-IsFifo_example = dispatch-IsFifo two_events reaction 100 8 busy waiting_now refl
