-- ===== src/Sender/Statistics.antt =====
-- The statistics report and the counters of the heartbeat.
use predictive_autoscaling_k.Common.{Bool, arith, ℕ, ◌+◌, ◌≡◌}
use predictive_autoscaling_k.Reports.Statistics.{
  Column, backlog_expired, completed, dropped_backlog_full, dropped_capacity, enqueued, failed,
  planned, scheduled, started, started_from_backlog, started_immediate, timed_out,
}
use predictive_autoscaling_k.Reports.Statistics.Totals.{recorded, recorded-record_count}
use predictive_autoscaling_k.Sender.{
  Clock, Sender, count, count_start, enqueue_or_drop, start_request_task,
}
use predictive_autoscaling_k.Sender.Backlog.{count_expired}
use predictive_autoscaling_k.Sender.Dispatch.{plan_second}
use predictive_autoscaling_k.Sender.Request.{
  Fault, client_error, count_response, handle_fault, timeout,
}
use predictive_autoscaling_k.Workload.{PreparedRequest}

-- The heartbeat's counter of a column.
abbrev pub counter_of : Column → Sender → ℕ
counter_of planned s = s.planned_requests_so_far
counter_of scheduled s = s.scheduled_requests
counter_of enqueued s = s.enqueued_requests
counter_of started s = s.started_requests
counter_of started_immediate s = s.started_immediate_requests
counter_of started_from_backlog s = s.started_from_backlog_requests
counter_of completed s = s.completed_requests
counter_of failed s = s.failed_requests
counter_of timed_out s = s.timed_out_requests
counter_of dropped_capacity s = s.dropped_due_to_capacity
counter_of dropped_backlog_full s = s.dropped_backlog_full_requests
counter_of backlog_expired s = s.backlog_expired_requests

-- What the statistics have of a column, in memory and in the file, is its counter.
abbrev pub Agrees : Column → Sender → Type 0
Agrees c s = recorded c s.statistics_writer ≡ counter_of c s

pub count_start-Agrees :
    (c : Column) (bucket : ℕ) (b : Bool) (s : Sender)
    → Agrees c s
    → Agrees c (count_start bucket b s)
unfolding count_start
count_start-Agrees planned bucket b s h = grind (arith, recorded-record_count)
count_start-Agrees _ bucket b s h = grind (arith, recorded-record_count)

pub enqueue_or_drop-Agrees :
    (c : Column) (t : Clock) (request : PreparedRequest) (s : Sender)
    → Agrees c s
    → Agrees c (enqueue_or_drop t request s)
unfolding enqueue_or_drop
enqueue_or_drop-Agrees planned t request s h = grind (arith, recorded-record_count)
enqueue_or_drop-Agrees _ t request s h = grind (arith, recorded-record_count)

pub start_request_task-Agrees :
    (c : Column) (request : PreparedRequest) (bucket : ℕ) (b : Bool) (s : Sender)
    → Agrees c s
    → Agrees c (start_request_task request bucket b s)
unfolding start_request_task
start_request_task-Agrees planned request bucket b s h = grind (arith, recorded-record_count)
start_request_task-Agrees _ request bucket b s h = grind (arith, recorded-record_count)

pub count_expired-Agrees :
    (c : Column) (t : Clock) (s : Sender) → Agrees c s → Agrees c (count_expired t s)
unfolding count_expired
count_expired-Agrees planned t s h = grind (arith, recorded-record_count)
count_expired-Agrees _ t s h = grind (arith, recorded-record_count)

pub handle_fault-Agrees :
    (c : Column) (t : Clock) (request : PreparedRequest) (fault : Fault) (s : Sender)
    → Agrees c s
    → Agrees c (handle_fault t request fault s)
unfolding handle_fault
handle_fault-Agrees planned t request timeout s h = grind (arith, recorded-record_count)
handle_fault-Agrees planned t request (client_error m) s h = grind (arith, recorded-record_count)
handle_fault-Agrees _ t request timeout s h = grind (arith, recorded-record_count)
handle_fault-Agrees _ t request _ s h = grind (arith, recorded-record_count)

pub count_response-Agrees :
    (c : Column) (t : Clock) (status : ℕ) (s : Sender)
    → Agrees c s
    → Agrees c (count_response t status s)
unfolding count_response
count_response-Agrees planned t status s h = grind (arith, recorded-record_count)
count_response-Agrees _ t status s h = grind (arith, recorded-record_count)

pub scheduled-Agrees :
    (c : Column) (t : Clock) (s : Sender)
    → Agrees c s
    → Agrees c
        (count t.bucket scheduled 1 (record s { scheduled_requests = s.scheduled_requests + 1 }))
scheduled-Agrees planned t s h = grind (arith, recorded-record_count)
scheduled-Agrees _ t s h = grind (arith, recorded-record_count)

pub plan_second-Agrees :
    (c : Column) (i n : ℕ) (s : Sender) → Agrees c s → Agrees c (plan_second i n s)
unfolding plan_second
plan_second-Agrees planned i n s h = grind (arith, recorded-record_count)
plan_second-Agrees _ i n s h = grind (arith, recorded-record_count)
