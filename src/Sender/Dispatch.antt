-- ===== src/Sender/Dispatch.antt =====
-- `_dispatch_second`, `_should_handle_request` and `_build_second_request_offsets`: which requests of a
-- second this worker takes, and how it hands them on.
use mathlib.Core.Option
pub mod Sharding
pub mod Offsets
pub mod Launching
pub mod Seconds
pub mod Running
use predictive_autoscaling_k.Common.{
  Bool, List, Option, [], count_where, get_elem?, if◌then◌else◌, leb, nat_eq, none, range_from,
  some, suc, true, zero, ℕ, ◌%◌, ◌+◌, ◌||◌, ◌∷◌,
}
use predictive_autoscaling_k.Reports.Statistics.{planned}
use predictive_autoscaling_k.Script.{ScriptPoint}
use predictive_autoscaling_k.Sender.{
  Clock, Sender, SenderConfig, count, flush_if_due, launch_or_backlog,
}

-- `_should_handle_request`
unfoldable pub should_handle_request : SenderConfig → ℕ → Bool
should_handle_request c global_request_index = elim c.worker_index [
  | none ↦ true
  | some worker_index ↦ nat_eq (global_request_index % c.worker_count) worker_index
]

-- The loop of `_build_second_request_offsets`.
unfoldable pub offsets_from : ℕ → List ScriptPoint → List ℕ
offsets_from running_total [] = []
offsets_from running_total (point ∷ points) =
    running_total ∷ offsets_from (running_total + point.requests) points

unfoldable pub build_second_request_offsets : List ScriptPoint → List ℕ
unfolding offsets_from
build_second_request_offsets timeline = offsets_from 0 timeline

-- `assigned_request_count`
unfoldable pub assigned_request_count : SenderConfig → ℕ → ℕ → ℕ
unfolding should_handle_request
assigned_request_count c second_base_offset request_count =
    count_where (λ i. should_handle_request c (second_base_offset + i)) (range_from 0 request_count)

-- `_wall_clock_bucket_for_script_second`, once the run has started.
abbrev pub wall_clock_bucket_for_script_second : ℕ → Sender → ℕ
wall_clock_bucket_for_script_second second_index s = s.run_start_second + second_index

-- The second's planned requests are counted under the script's own second.
unfoldable pub plan_second : ℕ → ℕ → Sender → Sender
plan_second second_index assigned s =
    count (wall_clock_bucket_for_script_second second_index s) planned assigned
      (record s { planned_requests_so_far = s.planned_requests_so_far + assigned })

-- Either loop over the requests of a second, from `request_index` on. `others i` is what the other tasks
-- of the event loop do while the loop sleeps before request `i`, and `clock i` the time it wakes.
unfoldable pub launch_requests :
    (ℕ → Sender → Sender) → (ℕ → Clock) → ℕ → ℕ → ℕ → ℕ → Sender → Option Sender
unfolding should_handle_request launch_or_backlog
launch_requests others clock second_index base zero request_index s = some s
launch_requests others clock second_index base (suc rounds) request_index s =
    let waited = others request_index s in
    let skip : Option Sender =
      launch_requests others clock second_index base rounds (suc request_index) waited in
    let launch : Option Sender =
      elim (launch_or_backlog (clock request_index) second_index request_index waited) [
        | none ↦ none
        | some next ↦ launch_requests others clock second_index base rounds (suc request_index) next
      ] in
    if should_handle_request s.config (base + request_index) then launch else skip

-- In burst mode, and for a single request, the loop does not sleep.
abbrev pub others_of : Sender → ℕ → (ℕ → Sender → Sender) → ℕ → Sender → Sender
others_of s request_count others = if s.burst || nat_eq request_count 1 then (λ _ v. v) else others

unfoldable pub dispatch_point :
    (ℕ → Sender → Sender) → (ℕ → Clock) → ℕ → ScriptPoint → ℕ → Sender → Option Sender
unfolding launch_requests plan_second assigned_request_count flush_if_due
dispatch_point others clock second_index point base s =
    let assigned = assigned_request_count s.config base point.requests in
    let counted = plan_second second_index assigned s in
    let launched =
      launch_requests (others_of s point.requests others) clock second_index base point.requests 0
        counted in
    if leb point.requests 0
    then some counted
    else Option.map (flush_if_due (clock point.requests)) launched

-- `second_request_offsets[second_index]` and `timeline[second_index]` are there for each second.
unfoldable pub dispatch_second : (ℕ → Sender → Sender) → (ℕ → Clock) → ℕ → Sender → Option Sender
unfolding dispatch_point build_second_request_offsets
dispatch_second others clock second_index s = elim (get_elem? s.timeline second_index) [
  | none ↦ none
  | some point ↦ elim (get_elem? (build_second_request_offsets s.timeline) second_index) [
    | none ↦ none
    | some base ↦ dispatch_point others clock second_index point base s
  ]
]

-- `self.dispatched_seconds = second_index + 1`
abbrev pub mark_dispatched : ℕ → Sender → Sender
mark_dispatched second_index s = record s { dispatched_seconds = suc second_index }

-- The loop of `run` over the seconds of the script, from `second_index` on. `between` is what the other
-- tasks do while the loop sleeps until the second begins; `others` and `clock` are those of its dispatch.
unfoldable pub run_seconds :
    (ℕ → Sender → Sender)
    → (ℕ → ℕ → Sender → Sender)
    → (ℕ → ℕ → Clock)
    → ℕ
    → ℕ
    → Sender
    → Option Sender
unfolding dispatch_second
run_seconds between others clock zero second_index s = some s
run_seconds between others clock (suc rounds) second_index s =
    let woken = between second_index s in
    let dispatched =
      dispatch_second (others second_index) (clock second_index) second_index woken in
    let rest : Option Sender = elim dispatched [
      | none ↦ none
      | some next_s ↦
          run_seconds between others clock rounds (suc second_index)
            (mark_dispatched second_index next_s)
    ] in
    if s.stop_requested then some s else rest
