-- ===== src/Sender.antt =====
-- `LoadSender` of custom-load-generator/load_sender.py: the token pool that bounds the requests in
-- flight, the backlog in front of it, the counters and the three report writers. The event loop runs one
-- piece of code at a time up to its next `await`; each such piece is a function here, and Steps says in
-- which order they may run. The set of running tasks is given by two numbers: tasks that hold a token,
-- and tasks that gave it back and are not discarded yet. `none` is an exception that nothing catches.
pub mod Backlog
pub mod Request
pub mod Steps
pub mod Balance
pub mod Dispatch
pub mod Outcomes
pub mod Overflow
pub mod Statistics
pub mod Agreement
pub mod Configuration
pub mod Heartbeat
mod Tests
use predictive_autoscaling_k.Reports.Statistics as Counts
use predictive_autoscaling_k.Reports.Requests as Report
use predictive_autoscaling_k.Reports.Incidents as Incidents
use predictive_autoscaling_k.Common.{
  Bool, List, Option, [], false, get_elem?, if◌then◌else◌, length, ltb, max, nat_eq, none, some,
  true, ℕ, ◌&&◌, ◌*◌, ◌++◌, ◌+◌, ◌-◌, ◌∷◌,
}
use predictive_autoscaling_k.Reports.Incidents.{IncidentReportWriter}
use predictive_autoscaling_k.Reports.Requests.{RequestReportWriter}
use predictive_autoscaling_k.Reports.Statistics.{
  Column, StatisticsReportWriter, dropped_backlog_full, dropped_capacity, enqueued, scheduled,
  started, started_from_backlog, started_immediate,
}
use predictive_autoscaling_k.Script.{ScriptPoint}
use predictive_autoscaling_k.Workload.{
  PreparedRequest, WorkloadConfig, build_request, request_class_for_index,
}

-- Times in microseconds; no worker index means that one process handles every request.
pub record SenderConfig : Type 0 where
  pub burst : Bool
  pub max_inflight : ℕ
  pub backlog_capacity : ℕ
  pub backlog_max_age : ℕ
  pub flush_interval : ℕ
  pub worker_count : ℕ
  pub worker_index : Option ℕ

-- The wall clock's second, its microsecond, and the event loop's monotonic time.
pub record Clock : Type 0 where
  pub bucket : ℕ
  pub timestamp : ℕ
  pub monotonic : ℕ

pub record BacklogItem : Type 0 where
  pub request : PreparedRequest
  pub enqueued_monotonic : ℕ

-- Where `_backlog_loop` stands: at the top of its loop, at one of its two awaits, or at its end.
pub data Phase : Type 0 where
  at_head waiting_event waiting_token returned : Phase

pub record Sender : Type 0 where
  pub config : SenderConfig
  pub open config use *
  pub workload : WorkloadConfig
  pub timeline : List ScriptPoint
  pub run_start_second : ℕ
  pub token_queue : ℕ
  pub backlog_queue : List BacklogItem
  pub executing : ℕ
  pub finishing : ℕ
  pub backlog_phase : Phase
  pub stop_requested : Bool
  pub scheduling_complete : Bool
  pub dispatched_seconds : ℕ
  pub planned_requests_so_far : ℕ
  pub scheduled_requests : ℕ
  pub enqueued_requests : ℕ
  pub started_requests : ℕ
  pub started_immediate_requests : ℕ
  pub started_from_backlog_requests : ℕ
  pub completed_requests : ℕ
  pub failed_requests : ℕ
  pub timed_out_requests : ℕ
  pub dropped_due_to_capacity : ℕ
  pub dropped_backlog_full_requests : ℕ
  pub backlog_expired_requests : ℕ
  pub backlog_max_depth : ℕ
  pub last_flush_monotonic : ℕ
  pub statistics_writer : StatisticsReportWriter
  pub report_writer : RequestReportWriter
  pub incident_writer : IncidentReportWriter

-- `__init__` and the start of `run`: the token queue is full.
unfoldable pub init : SenderConfig → WorkloadConfig → List ScriptPoint → ℕ → Sender
init config workload timeline run_start_second = record {
  config = config;
  workload = workload;
  timeline = timeline;
  run_start_second = run_start_second;
  token_queue = config.max_inflight;
  backlog_queue = [];
  executing = 0;
  finishing = 0;
  backlog_phase = at_head;
  stop_requested = false;
  scheduling_complete = false;
  dispatched_seconds = 0;
  planned_requests_so_far = 0;
  scheduled_requests = 0;
  enqueued_requests = 0;
  started_requests = 0;
  started_immediate_requests = 0;
  started_from_backlog_requests = 0;
  completed_requests = 0;
  failed_requests = 0;
  timed_out_requests = 0;
  dropped_due_to_capacity = 0;
  dropped_backlog_full_requests = 0;
  backlog_expired_requests = 0;
  backlog_max_depth = 0;
  last_flush_monotonic = 0;
  statistics_writer = Counts.reset run_start_second Counts.new_writer;
  report_writer = Report.reset;
  incident_writer = Incidents.reset;
}

-- `statistics_writer.record(second_bucket, column, n)`
abbrev pub count : ℕ → Column → ℕ → Sender → Sender
count second_bucket column n s = record s {
  statistics_writer = Counts.record_count second_bucket column n s.statistics_writer;
}

-- `len(inflight_tasks)`, and the property `inflight_count`.
abbrev pub inflight_tasks : Sender → ℕ
inflight_tasks s = s.executing + s.finishing

abbrev pub inflight_count : Sender → ℕ
inflight_count s = s.max_inflight - s.token_queue

-- `token_queue.put_nowait(token)`: a queue that is full raises QueueFull.
unfoldable pub put_token : Sender → Option Sender
put_token s =
    if ltb s.token_queue s.max_inflight
    then some (record s { token_queue = s.token_queue + 1 })
    else none

unfoldable pub count_start : ℕ → Bool → Sender → Sender
count_start second_bucket from_backlog s =
    if from_backlog
    then count second_bucket started_from_backlog 1
        (record s { started_from_backlog_requests = s.started_from_backlog_requests + 1 })
    else count second_bucket started_immediate 1
        (record s { started_immediate_requests = s.started_immediate_requests + 1 })

-- `_start_request_task`, once its token is taken.
unfoldable pub start_request_task : PreparedRequest → ℕ → Bool → Sender → Sender
unfolding count_start
start_request_task request second_bucket from_backlog s =
    let counted = count second_bucket started 1 (record s {
      started_requests = s.started_requests + 1;
      report_writer = Report.record_request second_bucket request.report_url s.report_writer;
    }) in
    let begun = count_start second_bucket from_backlog counted in
    record begun { executing = begun.executing + 1 }

unfoldable pub enqueue : Clock → PreparedRequest → Sender → Sender
enqueue t request s =
    let item : BacklogItem = record { request = request; enqueued_monotonic = t.monotonic } in
    let queue = s.backlog_queue ++ item ∷ [] in
    count t.bucket enqueued 1 (record s {
      backlog_queue = queue;
      enqueued_requests = s.enqueued_requests + 1;
      backlog_max_depth = max s.backlog_max_depth (length queue);
    })

unfoldable pub count_dropped : Clock → Sender → Sender
count_dropped t s =
    count t.bucket dropped_capacity 1
      (record s { dropped_due_to_capacity = s.dropped_due_to_capacity + 1 })

unfoldable pub count_backlog_full : Clock → Sender → Sender
count_backlog_full t s =
    count t.bucket dropped_backlog_full 1
      (record s { dropped_backlog_full_requests = s.dropped_backlog_full_requests + 1 })

-- `backlog_available.set()` has no effect of its own here: a set event only lets `backlog_wake` run.
unfoldable pub enqueue_or_drop : Clock → PreparedRequest → Sender → Sender
unfolding enqueue count_dropped count_backlog_full
enqueue_or_drop t request s =
    if ltb 0 s.backlog_capacity && ltb (length s.backlog_queue) s.backlog_capacity
    then enqueue t request s
    else if ltb 0 s.backlog_capacity
    then count_backlog_full t (count_dropped t s)
    else count_dropped t s

-- The part of `_launch_or_backlog` below the build of the request: a token, if one is there.
unfoldable pub admit : Clock → PreparedRequest → Sender → Sender
unfolding start_request_task enqueue_or_drop
admit t request s =
    if ltb 0 s.token_queue
    then start_request_task request t.bucket false (record s { token_queue = s.token_queue - 1 })
    else enqueue_or_drop t request s

-- The request of an index within a second of the script; `none` is an IndexError.
unfoldable pub request_at : Sender → ℕ → ℕ → Option PreparedRequest
request_at s second_index request_index = elim (get_elem? s.timeline second_index) [
  | none ↦ none
  | some point ↦
      elim (request_class_for_index s.workload point.request_class_counts request_index) [
        | none ↦ none
        | some request_class ↦ some (build_request s.workload request_class)
      ]
]

unfoldable pub launch_or_backlog : Clock → ℕ → ℕ → Sender → Option Sender
unfolding request_at admit
launch_or_backlog t second_index request_index s =
    let scheduled_one =
      count t.bucket scheduled 1 (record s { scheduled_requests = s.scheduled_requests + 1 }) in
    elim (request_at s second_index request_index) [
      | none ↦ none
      | some request ↦ some (admit t request scheduled_one)
    ]

-- The done callback `inflight_tasks.discard`.
unfoldable pub discard_task : Sender → Sender
discard_task s = record s { finishing = s.finishing - 1 }

-- The `finally` of `run`.
unfoldable pub complete_scheduling : Sender → Sender
complete_scheduling s = record s { scheduling_complete = true }

-- The three flushes of the progress loop, `_flush_request_report_if_due` and the end of `run`.
unfoldable pub flush_reports : Bool → Clock → Sender → Sender
flush_reports final t s = record s {
  report_writer = Report.flush_closed final t.bucket s.report_writer;
  statistics_writer = Counts.flush_closed final t.bucket s.statistics_writer;
  incident_writer = Incidents.flush s.incident_writer;
}

unfoldable pub flush_if_due : Clock → Sender → Sender
unfolding flush_reports
flush_if_due t s =
    if ltb (t.monotonic - s.last_flush_monotonic) s.flush_interval
    then s
    else record (flush_reports false t s) { last_flush_monotonic = t.monotonic }

-- The heartbeat's `done`.
unfoldable pub is_done : Sender → Bool
is_done s =
    s.scheduling_complete && nat_eq (inflight_tasks s) 0 && nat_eq (length s.backlog_queue) 0
