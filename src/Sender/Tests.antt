-- ===== src/Sender/Tests.antt =====
-- A run of a sender with one token and one place in its backlog, over a script of one second with
-- three requests: the first is started, the second enqueued and the third dropped.
use predictive_autoscaling_k.Common.{
  Bool, List, Option, [], arith, false, none, range_from, refl, some, sum_by, true, ℕ, ◌*◌, ◌+◌,
  ◌-◌, ◌∷◌, ◌≡◌,
}
use predictive_autoscaling_k.Common.Int.{pos}
use predictive_autoscaling_k.Reports.Statistics.{timed_out}
use predictive_autoscaling_k.Reports.Statistics.Totals.{recorded}
use predictive_autoscaling_k.Script.{
  CsvFile, Row, ScriptPoint, aware, fill_gap, integral, load_rows, load_script_points, ok,
  parse_counts, parse_request_count, parse_timestamp, second,
}
use predictive_autoscaling_k.Sender.{
  Clock, Sender, SenderConfig, admit, complete_scheduling, count_backlog_full, count_dropped,
  count_start, discard_task, enqueue, enqueue_or_drop, flush_reports, init, is_done,
  launch_or_backlog, put_token, request_at, start_request_task,
}
use predictive_autoscaling_k.Sender.Agreement.{run-Agrees}
use predictive_autoscaling_k.Sender.Backlog.{backlog_iterate, backlog_take, is_expired}
use predictive_autoscaling_k.Sender.Balance.{IsBalanced, run-IsBalanced}
use predictive_autoscaling_k.Sender.Configuration.{
  Environment, IsRunnable, RuntimeConfig, above_zero, absent, at_least, check_dispatch_mode,
  check_host, check_response_mode, check_worker_index, dyadic, float, get_float, get_int, integer,
  invalid, load_runtime_config, load_runtime_config-IsRunnable, nan, unset,
  worker_index_out_of_range,
}
use predictive_autoscaling_k.Sender.Dispatch.{assigned_request_count, dispatch_second, run_seconds}
use predictive_autoscaling_k.Sender.Dispatch.Launching.{IdleOthers}
use predictive_autoscaling_k.Sender.Dispatch.Running.{run_seconds-schedules, share}
use predictive_autoscaling_k.Sender.Dispatch.Seconds.{Dispatches, dispatch_second-schedules}
use predictive_autoscaling_k.Sender.Dispatch.Sharding.{assigned_request_count_total, worker}
use predictive_autoscaling_k.Sender.Heartbeat.{
  AddsUp, Heartbeat, aggregate, heartbeat_payload, heartbeat_payload-AddsUp,
}
use predictive_autoscaling_k.Sender.Outcomes.{
  execute_request-outcomes, is_done-accounts, outcomes, run-IsCounted,
}
use predictive_autoscaling_k.Sender.Overflow.{run-backlog_take, run-execute_request}
use predictive_autoscaling_k.Sender.Request.{
  count_outcome, count_response, execute_request, handle_fault, raised, responded, timeout,
}
use predictive_autoscaling_k.Sender.Statistics.{counter_of}
use predictive_autoscaling_k.Sender.Steps.{
  Reach, completes, discards, finishes, flushes, here, iterates, launches, takes, then_step,
}
use predictive_autoscaling_k.Workload.{
  PreparedRequest, WorkloadConfig, build_request, find_class, request_class_for_index,
}

abbrev one_worker : SenderConfig
one_worker = record {
  burst = false;
  max_inflight = 1;
  backlog_capacity = 1;
  backlog_max_age = 1000000;
  flush_interval = 1000000;
  worker_count = 1;
  worker_index = none;
}

abbrev two_workers : SenderConfig
two_workers = record one_worker { worker_count = 2; worker_index = some 1 }

abbrev html_and_image : WorkloadConfig
html_and_image = record {
  seed = pos 42;
  demand_base_path = "/demand";
  request_classes = "html" ∷ "image" ∷ [];
}

abbrev three_requests : ScriptPoint
three_requests = record { timestamp = 0; requests = 3; request_class_counts = 2 ∷ 1 ∷ [] }

abbrev one_request : ScriptPoint
one_request = record { timestamp = second; requests = 1; request_class_counts = 0 ∷ 1 ∷ [] }

abbrev script : List ScriptPoint
script = three_requests ∷ one_request ∷ []

abbrev at : ℕ → Clock
at n = record { bucket = n; timestamp = n * second; monotonic = n * second }

abbrev at_start : Sender
at_start = init one_worker html_and_image script 100

abbrev or_start : Option Sender → Sender
or_start none = at_start
or_start (some s) = s

abbrev launched_once : Sender
launched_once = or_start (launch_or_backlog (at 100) 0 0 at_start)

abbrev launched_twice : Sender
launched_twice = or_start (launch_or_backlog (at 100) 0 1 launched_once)

abbrev launched_thrice : Sender
launched_thrice = or_start (launch_or_backlog (at 100) 0 2 launched_twice)

abbrev html_request : PreparedRequest
html_request = build_request html_and_image "html"

abbrev first_finished : Sender
first_finished =
    or_start (execute_request (at 100) html_request (responded 200 none) launched_thrice)

abbrev waiting : Sender
waiting = backlog_iterate (at 100) first_finished

abbrev second_taken : Sender
second_taken = or_start (backlog_take (at 101) waiting)

abbrev second_finished : Sender
second_finished = or_start (execute_request (at 101) html_request (raised timeout) second_taken)

abbrev settled : Sender
settled =
    complete_scheduling (discard_task (discard_task (flush_reports false (at 101) second_finished)))

abbrev first_failed_late : Sender
first_failed_late =
    or_start (execute_request (at 100) html_request (responded 200 (some timeout)) launched_thrice)

abbrev sharded : Sender
sharded = init two_workers html_and_image script 100

Reach-thrice : {clean : Bool} → Reach clean at_start launched_thrice
unfolding init launch_or_backlog request_at request_class_for_index find_class build_request admit
    start_request_task count_start enqueue_or_drop enqueue count_dropped count_backlog_full
    execute_request count_outcome count_response handle_fault put_token backlog_iterate backlog_take
    is_expired discard_task complete_scheduling flush_reports
Reach-thrice =
    then_step (then_step (then_step here (launches (at 100) 0 0 refl)) (launches (at 100) 0 1 refl))
      (launches (at 100) 0 2 refl)

Reach-waiting : Reach true at_start waiting
unfolding init launch_or_backlog request_at request_class_for_index find_class build_request admit
    start_request_task count_start enqueue_or_drop enqueue count_dropped count_backlog_full
    execute_request count_outcome count_response handle_fault put_token backlog_iterate backlog_take
    is_expired discard_task complete_scheduling flush_reports
Reach-waiting =
    then_step
      (then_step Reach-thrice
        (finishes (at 100) html_request (responded 200 none) (omega arith) tt refl))
      (iterates (at 100) refl)

Reach-settled : Reach true at_start settled
unfolding init launch_or_backlog request_at request_class_for_index find_class build_request admit
    start_request_task count_start enqueue_or_drop enqueue count_dropped count_backlog_full
    execute_request count_outcome count_response handle_fault put_token backlog_iterate backlog_take
    is_expired discard_task complete_scheduling flush_reports
Reach-settled =
    let taken_second = then_step Reach-waiting (takes (at 101) refl (omega arith) refl) in
    let ended =
      then_step taken_second
        (finishes (at 101) html_request (raised timeout) (omega arith) tt refl) in
    let flushed = then_step ended (flushes (at 101) false) in
    then_step (then_step (then_step flushed (discards (omega arith))) (discards (omega arith)))
      completes

run-IsBalanced_example : IsBalanced settled
run-IsBalanced_example =
    run-IsBalanced true one_worker html_and_image script 100 settled Reach-settled

run-IsCounted_example : settled.started_requests ≡ outcomes settled + settled.executing
run-IsCounted_example = run-IsCounted one_worker html_and_image script 100 settled Reach-settled

is_done-accounts_example :
    settled.scheduled_requests ≡ outcomes settled + settled.dropped_due_to_capacity
unfolding init launch_or_backlog request_class_for_index execute_request count_outcome
    backlog_iterate backlog_take discard_task complete_scheduling flush_reports is_done
is_done-accounts_example =
    is_done-accounts one_worker html_and_image script 100 settled Reach-settled refl

run-Agrees_example : recorded timed_out settled.statistics_writer ≡ counter_of timed_out settled
run-Agrees_example =
    run-Agrees true timed_out one_worker html_and_image script 100 settled Reach-settled

run-execute_request_example :
    (s' : Sender) × (execute_request (at 101) html_request (raised timeout) launched_thrice
      ≡ some s')
unfolding init launch_or_backlog request_class_for_index execute_request count_outcome
    backlog_iterate backlog_take discard_task complete_scheduling flush_reports
run-execute_request_example =
    run-execute_request false one_worker html_and_image script 100 (at 101) html_request
      (raised timeout) launched_thrice Reach-thrice (omega arith)

run-backlog_take_example : (s' : Sender) × (backlog_take (at 103) waiting ≡ some s')
unfolding init launch_or_backlog request_class_for_index execute_request count_outcome
    backlog_iterate backlog_take discard_task complete_scheduling flush_reports
run-backlog_take_example =
    run-backlog_take true one_worker html_and_image script 100 (at 103) waiting Reach-waiting
      (omega arith)

-- A response that was counted, and then an exception: the request counts twice.
execute_request-outcomes_example :
    (outcomes first_failed_late ≡ outcomes launched_thrice + 2)
    × (first_failed_late.started_requests ≡ launched_thrice.started_requests)
    × (first_failed_late.executing ≡ launched_thrice.executing - 1)
    × (first_failed_late.token_queue ≡ launched_thrice.token_queue + 1)
unfolding init launch_or_backlog request_class_for_index execute_request count_outcome
    backlog_iterate backlog_take discard_task complete_scheduling flush_reports
execute_request-outcomes_example =
    execute_request-outcomes (at 100) html_request (responded 200 (some timeout)) launched_thrice
      first_failed_late refl

idle : IdleOthers (λ _ v. v)
idle j v = record {
  keeps = record {
    same_config = refl;
    same_workload = refl;
    same_timeline = refl;
    same_planned = refl;
    same_stop = refl;
  };
  same_scheduled = refl;
}

dispatch_second-schedules_example :
    Dispatches (dispatch_second (λ _ v. v) (λ _. at 100) 1 sharded) sharded 3 1
unfolding init
dispatch_second-schedules_example =
    dispatch_second-schedules (λ _ v. v) (λ _. at 100) 1 one_request sharded idle
      (record { placed = refl; consistent = record { adds_up = refl; complete = refl } })

assigned_request_count_total_example :
    sum_by (λ w. assigned_request_count (worker two_workers w) 4 3) (range_from 0 2) ≡ 3
assigned_request_count_total_example = assigned_request_count_total two_workers 4 3 (omega arith)

abbrev cells : ℕ → ℕ → ℕ → Row
cells t a b = record {
  datetime = some (aware t);
  counts = some (integral (pos a)) ∷ some (integral (pos b)) ∷ [];
}

abbrev script_file : CsvFile
script_file = record {
  exists = true;
  has_columns = true;
  rows = cells 0 2 1 ∷ cells second 0 1 ∷ [];
}

script_loads : load_script_points script_file 2 ≡ ok script
unfolding load_script_points load_rows parse_timestamp parse_counts parse_request_count fill_gap
script_loads = refl

run_seconds-schedules_example :
    (s : Sender) × (run_seconds
        (λ _ v. v)
        (λ _ _ v. v)
        (λ i _. at (100 + i))
        2
        0
        (init two_workers html_and_image script 100)
      ≡ some s)
    × (s.planned_requests_so_far ≡ share two_workers 4)
    × (s.scheduled_requests ≡ share two_workers 4)
    × (s.dispatched_seconds ≡ 2)
run_seconds-schedules_example =
    run_seconds-schedules script_file two_workers html_and_image script 100 (λ _ v. v) (λ _ _ v. v)
      (λ i _. at (100 + i)) (refl, (refl, tt)) script_loads idle (λ _. idle)

abbrev environment : Environment
environment = record {
  target_host = none;
  dispatch_mode = some "burst";
  response_mode = none;
  progress_log_interval = unset;
  request_log_flush_interval = integer (pos 5);
  max_inflight_variable = integer (pos 10);
  backlog_capacity_variable = integer (pos 3);
  backlog_max_age_seconds = absent;
  request_timeout_seconds = absent;
  connect_timeout_seconds = float nan;
  worker_count_variable = integer (pos 4);
  worker_index_variable = integer (pos 2);
}

abbrev third_worker : RuntimeConfig
third_worker = record {
  burst = true;
  max_inflight = 10;
  backlog_capacity = 3;
  backlog_max_age_seconds = dyadic (pos 1) 0;
  request_timeout_seconds = dyadic (pos 3602879701896397) 54;
  connect_timeout_seconds = nan;
  progress_log_interval_sec = 60;
  request_log_flush_interval_sec = 5;
  worker_count = 4;
  worker_index = some 2;
}

refuses_index :
    load_runtime_config (record environment { worker_index_variable = integer (pos 4) })
    ≡ invalid worker_index_out_of_range
unfolding load_runtime_config get_int at_least get_float above_zero check_host check_dispatch_mode
    check_response_mode check_worker_index
refuses_index = refl

load_runtime_config-IsRunnable_example : IsRunnable third_worker
unfolding load_runtime_config get_int at_least get_float above_zero check_host check_dispatch_mode
    check_response_mode check_worker_index
load_runtime_config-IsRunnable_example =
    load_runtime_config-IsRunnable environment third_worker refl

heartbeat_payload-AddsUp_example : AddsUp (heartbeat_payload settled)
heartbeat_payload-AddsUp_example =
    heartbeat_payload-AddsUp one_worker html_and_image script 100 settled Reach-settled

abbrev beat : Heartbeat
beat = heartbeat_payload settled

abbrev or_beat : Option Heartbeat → Heartbeat
or_beat none = beat
or_beat (some h) = h

abbrev both : Heartbeat
both = or_beat (aggregate (beat ∷ beat ∷ []))

AddsUp-beat : AddsUp beat
AddsUp-beat = heartbeat_payload-AddsUp one_worker html_and_image script 100 settled Reach-settled
