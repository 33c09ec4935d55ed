-- ===== src/Lib.antt =====
-- Verification of the load generator in custom-load-generator/, of forecasting-service/, of two stores of
-- system-showcase/ and of the scripts of linux-script/ that create a worker, put one in the load balancer's
-- list and take one down.
--
-- The program replays a CSV script of requests against a host. custom-load-generator/load_sender.py reads
-- the script into one point per second (`load_script_points`), and its LoadSender sends the requests of
-- each second: at most `max_inflight` at a time, each of which holds a token; a request that finds no
-- token waits in a bounded backlog or is dropped. custom-load-generator/workload.py turns the n-th request
-- of a second into a request of one class. Three report writers count what happens, by second of
-- wall-clock time, and append to CSV files. Several worker processes may share one script; the parent
-- merges their reports.
--
-- forecasting-service/app/service.py answers a forecast request: it reads the history of an option's metrics
-- from Prometheus (app/clients.py), and predicts with a local model or asks a remote one; app/models.py
-- holds the options and the payloads. Floating-point numbers are an abstract type there, and the servers,
-- their HTTP and their JSON are a parameter.
--
-- linux-script/teardown-vultr-worker.py finds the VM of a cluster node, drains and deletes the node, takes the VM
-- off the load balancer and destroys it; linux-script/attach-vm-to-lb.py adds a VM to the load balancer, and
-- linux-script/create-vultr-worker.py creates one and waits until it is ready. They read the answers of the
-- Vultr API as JSON, and poll it until a deadline. linux-script/create-worker-e2e.py runs the creation, the join
-- of the cluster and the attachment as commands. The API, the commands, the clock and `time.sleep` are a
-- host, a parameter with a world of its own; every call goes into a log.
--
-- Files, and the code that they model:
--   Common, Common/*          tests, lists, dicts and integers; no code of the program
--   Workload                  custom-load-generator/workload.py: request classes, WorkloadPlanner
--   Workload/Planner          theorems on the parser of the classes and on the planner
--   Script                    load_sender.py: _parse_timestamp, _parse_request_count, load_script_points
--   Script/Timeline, Filling  theorems on the loaded points; the gaps; when a script loads
--   Reports/Statistics        StatisticsReportWriter; theorems in the modules below it
--   Reports/Requests          RequestReportWriter and _merge_request_reports; theorems below
--   Reports/Incidents         IncidentReportWriter, with its theorem
--   Sender                    LoadSender: state, tokens, _launch_or_backlog, _enqueue_or_drop,
--                             _start_request_task, flushes
--   Sender/Backlog            _backlog_loop and _is_backlog_item_expired
--   Sender/Request            _execute_request and _record_incident_if_relevant
--   Sender/Dispatch           _dispatch_second, _should_handle_request, _build_second_request_offsets and
--                             the loop of `run`; theorems in the modules below it
--   Sender/Configuration      load_runtime_config, with its theorem
--   Sender/Heartbeat          _heartbeat_payload and _log_aggregated_worker_progress, with theorems
--   Sender/Steps              the steps of the event loop and the states that a run reaches
--   Sender/Balance, Outcomes, Overflow, Agreement   theorems on runs
--   Forecast                  models.py: ForecastOption with its validation and queries, MetricForecastRow
--   Forecast/Prometheus       clients.py: query_range
--   Forecast/Rows             service.py: history rows and the extraction of predictions
--   Forecast/Service          service.py: queries, options, the last-value model, types of results
--   Forecast/Predict          service.py: the fetches, the three kinds of models, predict_workload
--   Forecast/Fetches, Workload, History, Points, Options, Predictions   theorems on them
--   LoopHistory, LoopHistory/*   system-showcase/app/loop_history_store.py: LoopHistoryStore, a bounded
--                             history of controller loops for each scaler; its theorems
--   RangeStore, RangeStore/*  system-showcase/app/script_range_store.py: the index of byte offsets, bisect_right
--                             and _slice_filled_series; Window, Index and Refinement have the theorems
--   Cloud                     the JSON values of linux-script/*.py, and the exceptions
--   Cloud/Effects, Environment, Polling   api_call, run_command, the host and its log; the variables and exit
--                             codes; the loops that wait
--   Cloud/Triples, Calls      a logic for what a script leaves in the log
--   Cloud/Clock, Promptness   the clock through a script, and the loops against their deadline
--   Cloud/Sample              a host for the tests
--   Cloud/Answers             what an answer says, in terms of its JSON; the theorems speak of answers in these terms
--   Cloud/Teardown            teardown-vultr-worker.py: load_config, parse_instance_by_node_name,
--                             instance_exists_in_list; in Balancer lb_has_instance, parse_lb_summary and
--                             build_detach_payload; in Run the steps and main
--   Cloud/Teardown/Spec, Ordering, Completion, Termination, Matching, Liveness   theorems on it
--   Cloud/Attach              attach-vm-to-lb.py: load_config, the parsers, build_patch_payload; in Run main
--   Cloud/Attach/Payload, Reading, Completion   theorems on it
--   Cloud/Create              create-vultr-worker.py: load_config and build_payload; in Run the waiting loop,
--                             write_result_file and main
--   Cloud/Create/Readiness, Payload, Completion   theorems on it
--   Cloud/EndToEnd            create-worker-e2e.py: the waits, remove_stale_known_host and main, with theorems in
--                             Steps, Reading and Completion
--
-- Sources are Python; a function here has the name of its function there, without the leading underscore
-- (`record` is record_count, record_request and record_incident). A time in the script, a timeout and a
-- monotonic time are numbers of microseconds; a second bucket, which the source writes as text, is the
-- number of its second, with the same order. Python's integers have no bound, and so has ℕ.
-- In Sender the largest age of a backlog item is a finite number of microseconds; Sender/Configuration has the
-- floats with nan and the infinities. A timestamp lies before the year 10000, where `datetime` ends.
-- A file is the list of its rows below the header. asyncio runs one task at a time up to its next
-- await: each piece between awaits is a function, and Sender/Steps lets the pieces follow one another in
-- any order that the awaits allow, with any clock readings. A response, its status and the exceptions that
-- aiohttp raises are an argument, as is each reading of a clock.
--
-- Fuel: `fill_gap` takes fuel. It is called with the microseconds of the gap, and each round takes a
-- second off the gap. `replace_from` makes at most as many rounds as the text has bytes; each takes a
-- placeholder off the rest of the text. A loop of linux-script/ takes fuel and ends with an exception of the
-- model's own without any; each of its rounds sleeps for the interval, so fuel for one round more than the
-- timeout has seconds is enough. `bisect_loop` takes fuel too: each of its rounds narrows the span, and it is called
-- with more fuel than the list has entries.
--
-- Not modelled: the text of environment variables, CSV and date syntax, logging, the heartbeat and metadata
-- files as such, signal handlers, and the processes of the workers. Nor are the routes of
-- forecasting-service/, the answers and the sampling of script_range_store.py,
-- the rest of system-showcase/, and the other programs of the repository:
-- the scripts of linux-script/ that bootstrap machines, and locust-test/. Of the modelled scripts
-- of linux-script/ the printed lines are left out, the HTTP below `api_call`, and `str` of a list or a dict,
-- which is a parameter as base64 is. A connection that breaks while a body is read is not modelled either.
pub mod Common
pub mod Workload
pub mod Script
pub mod Reports
pub mod Sender
pub mod Forecast
pub mod LoopHistory
pub mod RangeStore
pub mod Cloud
