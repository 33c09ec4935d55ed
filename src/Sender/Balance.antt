-- ===== src/Sender/Balance.antt =====
-- The tokens and the requests at each point of a run.
use mathlib.Core.Path.{subst}
use mathlib.Core.Option.{some-injective}
use predictive_autoscaling_k.Common.{
  Bool, List, Option, arith, length, length-append, none, some, ℕ, ◌+◌, ◌<◌, ◌≡◌, ◌≤◌,
}
use predictive_autoscaling_k.Reports.Statistics.{scheduled}
use predictive_autoscaling_k.Script.{ScriptPoint}
use predictive_autoscaling_k.Sender.{
  Clock, Sender, SenderConfig, admit, complete_scheduling, count, discard_task, flush_if_due,
  flush_reports, init, launch_or_backlog, request_at,
}
use predictive_autoscaling_k.Sender.Backlog.{backlog_iterate, backlog_take, backlog_wake}
use predictive_autoscaling_k.Sender.Dispatch.{plan_second}
use predictive_autoscaling_k.Sender.Request.{Outcome, count_outcome, execute_request}
use predictive_autoscaling_k.Sender.Steps.{
  Reach, Step, completes, discards, finishes, flushes, flushes_if_due, here, iterates, launches,
  plans, takes, then_step, wakes,
}
use predictive_autoscaling_k.Workload.{PreparedRequest, WorkloadConfig}

pub record IsBalanced (s : Sender) : Type 0 where
  pub tokens : s.token_queue + s.executing ≡ s.max_inflight
  pub scheduled_balance :
      s.scheduled_requests + s.backlog_expired_requests
      ≡ s.started_immediate_requests + s.enqueued_requests + s.dropped_due_to_capacity
  pub enqueued_balance :
      s.enqueued_requests
      ≡ s.started_from_backlog_requests + s.backlog_expired_requests + length s.backlog_queue
  pub started_balance :
      s.started_requests ≡ s.started_immediate_requests + s.started_from_backlog_requests
  pub bounded : length s.backlog_queue ≤ s.backlog_max_depth
  pub deepest : s.backlog_max_depth ≤ s.backlog_capacity
  pub full :
      s.dropped_backlog_full_requests + s.backlog_expired_requests ≤ s.dropped_due_to_capacity

init-IsBalanced :
    (c : SenderConfig) (w : WorkloadConfig) (timeline : List ScriptPoint) (first : ℕ)
    → IsBalanced (init c w timeline first)
unfolding init
init-IsBalanced c w timeline first = ground arith

-- A request that was counted as scheduled is started, enqueued or dropped.
admit-IsBalanced :
    (t : Clock) (request : PreparedRequest) (s : Sender)
    → IsBalanced s
    → IsBalanced (
        admit t request
          (count t.bucket scheduled 1 (record s { scheduled_requests = s.scheduled_requests + 1 })))
unfolding admit
admit-IsBalanced t request s h = grind (arith, length-append)

launch_or_backlog-IsBalanced :
    (t : Clock) (i j : ℕ) (s s' : Sender)
    → IsBalanced s
    → launch_or_backlog t i j s ≡ some s'
    → IsBalanced s'
unfolding launch_or_backlog
launch_or_backlog-IsBalanced t i j s s' h e = launched (request_at s i j) e
  where
    launched :
        (o : Option PreparedRequest)
        → elim o [
          | none ↦ none
          | some request ↦ some (
              admit t request (
                count t.bucket scheduled 1
                  (record s { scheduled_requests = s.scheduled_requests + 1 })))
        ]
          ≡ some s'
        → IsBalanced s'
    launched none k = cc
    launched (some request) k =
        subst IsBalanced (some-injective _ _ k) (admit-IsBalanced t request s h)

backlog_iterate-IsBalanced :
    (t : Clock) (s : Sender) → IsBalanced s → IsBalanced (backlog_iterate t s)
unfolding backlog_iterate
backlog_iterate-IsBalanced t s h = ground arith

backlog_take-IsBalanced :
    (t : Clock) (s s' : Sender)
    → IsBalanced s
    → 0 < s.token_queue
    → backlog_take t s ≡ some s'
    → IsBalanced s'
unfolding backlog_take
backlog_take-IsBalanced t s s' h some_token e = ground arith

execute_request-IsBalanced :
    (t : Clock) (request : PreparedRequest) (outcome : Outcome) (s s' : Sender)
    → IsBalanced s
    → 0 < s.executing
    → execute_request t request outcome s ≡ some s'
    → IsBalanced s'
unfolding execute_request count_outcome
execute_request-IsBalanced t request outcome s s' h running e = ground arith

-- Each step keeps the balance: the tokens in the queue and in the hands of tasks are `max_inflight`, each
-- scheduled request was started at once, enqueued or dropped, each enqueued one was started, has expired or
-- is in the backlog, and the backlog stays within its capacity.
pub Step-IsBalanced :
    {clean : Bool} (s s' : Sender) → Step clean s s' → IsBalanced s → IsBalanced s'
unfolding plan_second backlog_wake discard_task complete_scheduling flush_reports flush_if_due
Step-IsBalanced s _ (plans i n) h = ground arith
Step-IsBalanced s s' (launches t i j e) h = launch_or_backlog-IsBalanced t i j s s' h e
Step-IsBalanced s _ (iterates t p) h = backlog_iterate-IsBalanced t s h
Step-IsBalanced s _ (wakes p) h = ground arith
Step-IsBalanced s s' (takes t p some_token e) h = backlog_take-IsBalanced t s s' h some_token e
Step-IsBalanced s s' (finishes t request outcome running c e) h =
    execute_request-IsBalanced t request outcome s s' h running e
Step-IsBalanced s _ (discards p) h = ground arith
Step-IsBalanced s _ completes h = ground arith
Step-IsBalanced s _ (flushes t final) h = ground arith
Step-IsBalanced s _ (flushes_if_due t) h = ground arith

Reach-IsBalanced : {clean : Bool} (s s' : Sender) → IsBalanced s → Reach clean s s' → IsBalanced s'
Reach-IsBalanced s _ h here = h
Reach-IsBalanced s _ h (then_step {t = t} {u = u} r st) =
    Step-IsBalanced t u st (Reach-IsBalanced s t h r)

-- At every point of a run, the tokens in the queue and in the hands of tasks are `max_inflight`, each
-- scheduled request was started at once, enqueued or dropped, each enqueued one was started, has expired
-- or is in the backlog, and the backlog stays within its capacity.
pub run-IsBalanced :
    (clean : Bool) (c : SenderConfig) (w : WorkloadConfig) (timeline : List ScriptPoint) (first : ℕ)
    (s : Sender)
    → Reach clean (init c w timeline first) s
    → IsBalanced s
run-IsBalanced clean c w timeline first s r =
    Reach-IsBalanced (init c w timeline first) s (init-IsBalanced c w timeline first) r
