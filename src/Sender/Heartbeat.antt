-- ===== src/Sender/Heartbeat.antt =====
-- `_heartbeat_payload`, and `_log_aggregated_worker_progress` over the heartbeats of the workers.
use mathlib.Core.Path.{subst}
use predictive_autoscaling_k.Sender as LoadSender
use mathlib.Core.Option.{some-injective}
use predictive_autoscaling_k.Common.{
  All, List, Option, [], arith, length, max, none, refl, some, sum_by, true, ℕ, ◌+◌, ◌∷◌, ◌≡◌, ◌≤◌,
}
use predictive_autoscaling_k.Script.{ScriptPoint}
use predictive_autoscaling_k.Script.Timeline.{requests_in}
use predictive_autoscaling_k.Sender.{Sender, SenderConfig, init}
use predictive_autoscaling_k.Sender.Balance.{run-IsBalanced}
use predictive_autoscaling_k.Sender.Outcomes.{run-IsCounted}
use predictive_autoscaling_k.Sender.Steps.{Reach}
use predictive_autoscaling_k.Workload.{WorkloadConfig}

pub record Heartbeat : Type 0 where
  pub total_points : ℕ
  pub total_planned_requests : ℕ
  pub dispatched_seconds : ℕ
  pub planned_requests_so_far : ℕ
  pub scheduled_requests : ℕ
  pub enqueued_requests : ℕ
  pub started_requests : ℕ
  pub started_immediate_requests : ℕ
  pub started_from_backlog_requests : ℕ
  pub completed_requests : ℕ
  pub failed_requests : ℕ
  pub timed_out_requests : ℕ
  pub dropped_due_to_capacity : ℕ
  pub dropped_backlog_full_requests : ℕ
  pub backlog_expired_requests : ℕ
  pub inflight_count : ℕ
  pub backlog_depth : ℕ
  pub backlog_max_depth : ℕ

-- The payload without `done`, which is `is_done`.
unfoldable pub heartbeat_payload : Sender → Heartbeat
heartbeat_payload s = record {
  total_points = length s.timeline;
  total_planned_requests = requests_in s.timeline;
  dispatched_seconds = s.dispatched_seconds;
  planned_requests_so_far = s.planned_requests_so_far;
  scheduled_requests = s.scheduled_requests;
  enqueued_requests = s.enqueued_requests;
  started_requests = s.started_requests;
  started_immediate_requests = s.started_immediate_requests;
  started_from_backlog_requests = s.started_from_backlog_requests;
  completed_requests = s.completed_requests;
  failed_requests = s.failed_requests;
  timed_out_requests = s.timed_out_requests;
  dropped_due_to_capacity = s.dropped_due_to_capacity;
  dropped_backlog_full_requests = s.dropped_backlog_full_requests;
  backlog_expired_requests = s.backlog_expired_requests;
  inflight_count = LoadSender.inflight_count s;
  backlog_depth = length s.backlog_queue;
  backlog_max_depth = s.backlog_max_depth;
}

-- `max(… for heartbeat in heartbeats)`
abbrev pub max_by : (Heartbeat → ℕ) → List Heartbeat → ℕ
max_by f [] = 0
max_by f (h ∷ hs) = max (f h) (max_by f hs)

-- The figures of the progress line; nothing is logged when no heartbeat could be read.
unfoldable pub aggregate : List Heartbeat → Option Heartbeat
aggregate [] = none
aggregate (first ∷ more) =
    let hs = first ∷ more in
    some (record {
      total_points = max_by (λ h. h.total_points) hs;
      total_planned_requests = max_by (λ h. h.total_planned_requests) hs;
      dispatched_seconds = max_by (λ h. h.dispatched_seconds) hs;
      planned_requests_so_far = sum_by (λ h. h.planned_requests_so_far) hs;
      scheduled_requests = sum_by (λ h. h.scheduled_requests) hs;
      enqueued_requests = sum_by (λ h. h.enqueued_requests) hs;
      started_requests = sum_by (λ h. h.started_requests) hs;
      started_immediate_requests = sum_by (λ h. h.started_immediate_requests) hs;
      started_from_backlog_requests = sum_by (λ h. h.started_from_backlog_requests) hs;
      completed_requests = sum_by (λ h. h.completed_requests) hs;
      failed_requests = sum_by (λ h. h.failed_requests) hs;
      timed_out_requests = sum_by (λ h. h.timed_out_requests) hs;
      dropped_due_to_capacity = sum_by (λ h. h.dropped_due_to_capacity) hs;
      dropped_backlog_full_requests = sum_by (λ h. h.dropped_backlog_full_requests) hs;
      backlog_expired_requests = sum_by (λ h. h.backlog_expired_requests) hs;
      inflight_count = sum_by (λ h. h.inflight_count) hs;
      backlog_depth = sum_by (λ h. h.backlog_depth) hs;
      backlog_max_depth = sum_by (λ h. h.backlog_max_depth) hs;
    })

-- What the figures of a heartbeat must add up to.
pub record AddsUp (h : Heartbeat) : Type 0 where
  pub scheduled_figures :
      h.scheduled_requests + h.backlog_expired_requests
      ≡ h.started_immediate_requests + h.enqueued_requests + h.dropped_due_to_capacity
  pub enqueued_figures :
      h.enqueued_requests
      ≡ h.started_from_backlog_requests + h.backlog_expired_requests + h.backlog_depth
  pub started_figures :
      h.started_requests ≡ h.started_immediate_requests + h.started_from_backlog_requests
  pub finished_figures :
      h.started_requests
      ≡ h.completed_requests + h.failed_requests + h.timed_out_requests + h.inflight_count
  pub depth_figures : h.backlog_depth ≤ h.backlog_max_depth

-- At every point of a run in which no exception follows a counted response, the figures of the heartbeat
-- add up: the scheduled requests, the enqueued, the started and the finished ones.
pub heartbeat_payload-AddsUp :
    (c : SenderConfig) (w : WorkloadConfig) (timeline : List ScriptPoint) (first : ℕ) (s : Sender)
    → Reach true (init c w timeline first) s
    → AddsUp (heartbeat_payload s)
unfolding heartbeat_payload
heartbeat_payload-AddsUp c w timeline first s r =
    let b = run-IsBalanced true c w timeline first s r in
    let counted = run-IsCounted c w timeline first s r in
    let tokens = b.tokens in
    record {
      scheduled_figures = b.scheduled_balance;
      enqueued_figures = b.enqueued_balance;
      started_figures = b.started_balance;
      finished_figures = omega (arith, counted, tokens);
      depth_figures = b.bounded;
    }

abbrev Sums : List Heartbeat → Type 0
Sums hs =
    (sum_by (λ h. h.scheduled_requests) hs + sum_by (λ h. h.backlog_expired_requests) hs
      ≡ sum_by (λ h. h.started_immediate_requests) hs
        + sum_by (λ h. h.enqueued_requests) hs
        + sum_by (λ h. h.dropped_due_to_capacity) hs)
    × (sum_by (λ h. h.enqueued_requests) hs
        ≡ sum_by (λ h. h.started_from_backlog_requests) hs
          + sum_by (λ h. h.backlog_expired_requests) hs
          + sum_by (λ h. h.backlog_depth) hs)
    × (sum_by (λ h. h.started_requests) hs
        ≡ sum_by (λ h. h.started_immediate_requests) hs
          + sum_by (λ h. h.started_from_backlog_requests) hs)
    × (sum_by (λ h. h.started_requests) hs
        ≡ sum_by (λ h. h.completed_requests) hs
          + sum_by (λ h. h.failed_requests) hs
          + sum_by (λ h. h.timed_out_requests) hs
          + sum_by (λ h. h.inflight_count) hs)
    × (sum_by (λ h. h.backlog_depth) hs ≤ sum_by (λ h. h.backlog_max_depth) hs)

sums : (hs : List Heartbeat) → All AddsUp hs → Sums hs
sums [] a = (refl, refl, refl, refl, omega arith)
sums (h ∷ hs) a =
    let (p, q, r, t, u) = sums hs a.1 in
    let b = a.0 in
    (
      omega (arith, p, b.scheduled_figures),
      omega (arith, q, b.enqueued_figures),
      omega (arith, r, b.started_figures),
      omega (arith, t, b.finished_figures),
      omega (arith, u, b.depth_figures),
    )

-- When the figures of each worker's heartbeat add up, so do the aggregated figures.
pub aggregate-AddsUp :
    (hs : List Heartbeat) (total_figures : Heartbeat)
    → All AddsUp hs
    → aggregate hs ≡ some total_figures
    → AddsUp total_figures
unfolding aggregate
aggregate-AddsUp [] total_figures a e = cc
aggregate-AddsUp (h ∷ hs) total_figures a e =
    let (p, q, r, t, u) = sums (h ∷ hs) a in
    subst AddsUp (some-injective _ total_figures e) (record {
      scheduled_figures = p;
      enqueued_figures = q;
      started_figures = r;
      finished_figures = t;
      depth_figures = u;
    })
