-- ===== src/Sender/Backlog.antt =====
-- `_backlog_loop` and `_is_backlog_item_expired`, in the pieces between the awaits.
use mathlib.Core.Option
use predictive_autoscaling_k.Common.{
  Bool, List, Option, [], if◌then◌else◌, ltb, some, true, ◌+◌, ◌-◌, ◌∷◌,
}
use predictive_autoscaling_k.Reports.Statistics.{backlog_expired, dropped_capacity}
use predictive_autoscaling_k.Sender.{
  BacklogItem, Clock, Sender, at_head, count, put_token, returned, start_request_task,
  waiting_event, waiting_token,
}

unfoldable pub is_expired : Clock → BacklogItem → Sender → Bool
is_expired t item s = ltb s.backlog_max_age (t.monotonic - item.enqueued_monotonic)

-- An item that was taken off the backlog has expired.
unfoldable pub count_expired : Clock → Sender → Sender
count_expired t s = count t.bucket backlog_expired 1 (
    count t.bucket dropped_capacity 1 (record s {
      dropped_due_to_capacity = s.dropped_due_to_capacity + 1;
      backlog_expired_requests = s.backlog_expired_requests + 1;
    }))

-- `_backlog_loop` from the top of its loop to the next await, the next round or its end.
abbrev pub iterate_on : List BacklogItem → Clock → Sender → Sender
iterate_on [] t s =
    if s.scheduling_complete
    then record s { backlog_phase = returned }
    else record s { backlog_phase = waiting_event }
iterate_on (head_item ∷ rest) t s =
    if is_expired t head_item s
    then count_expired t (record s { backlog_queue = rest })
    else record s { backlog_phase = waiting_token }

unfoldable pub backlog_iterate : Clock → Sender → Sender
unfolding is_expired count_expired
backlog_iterate t s = iterate_on s.backlog_queue t s

-- The event was set, or the wait of half a second ran out.
unfoldable pub backlog_wake : Sender → Sender
backlog_wake s = record s { backlog_phase = at_head }

-- From `await token_queue.get()`, with the token taken, to the next round.
abbrev pub take_on : List BacklogItem → Clock → Sender → Option Sender
take_on [] t s = put_token s
take_on (item ∷ rest) t s =
    let popped = record s { backlog_queue = rest } in
    if is_expired t item s
    then Option.map (count_expired t) (put_token popped)
    else some (start_request_task item.request t.bucket true popped)

unfoldable pub backlog_take : Clock → Sender → Option Sender
unfolding put_token is_expired count_expired start_request_task
backlog_take t s =
    take_on s.backlog_queue t
      (record s { token_queue = s.token_queue - 1; backlog_phase = at_head })
