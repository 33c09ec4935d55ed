-- ===== src/Sender/Dispatch/Launching.antt =====
-- The loop over the requests of a second, and what it schedules.
use predictive_autoscaling_k.Common.{
  Bool-cases, Option, String, ap, arith, count_where, get_elem?, inl, inr, length, none, range_from,
  refl, some, suc, sym, zero, ℕ, ◌+◌, ◌<◌, ◌∙◌, ◌≡◌, ◌≤◌,
}
use predictive_autoscaling_k.Reports.Statistics.{scheduled}
use predictive_autoscaling_k.Script.{ScriptPoint}
use predictive_autoscaling_k.Script.Timeline.{IsConsistent}
use predictive_autoscaling_k.Sender.{
  Clock, Sender, SenderConfig, admit, count, launch_or_backlog, request_at,
}
use predictive_autoscaling_k.Sender.Dispatch.{launch_requests, should_handle_request}
use predictive_autoscaling_k.Workload.{PreparedRequest, build_request}
use predictive_autoscaling_k.Workload.Planner.{IsWithin, request_class_for_index-IsWithin}

-- What other tasks, and a launch, leave alone.
pub record Keeps (s s' : Sender) : Type 0 where
  pub same_config : s'.config ≡ s.config
  pub same_workload : s'.workload ≡ s.workload
  pub same_timeline : s'.timeline ≡ s.timeline
  pub same_planned : s'.planned_requests_so_far ≡ s.planned_requests_so_far
  pub same_stop : s'.stop_requested ≡ s.stop_requested

-- What only the start of a run and the signal handlers set.
pub record SameSetup (s s' : Sender) : Type 0 where
  pub config_kept : s'.config ≡ s.config
  pub workload_kept : s'.workload ≡ s.workload
  pub timeline_kept : s'.timeline ≡ s.timeline
  pub stop_kept : s'.stop_requested ≡ s.stop_requested

pub Keeps-SameSetup : (s s' : Sender) → Keeps s s' → SameSetup s s'
Keeps-SameSetup s s' k = record {
  config_kept = k.same_config;
  workload_kept = k.same_workload;
  timeline_kept = k.same_timeline;
  stop_kept = k.same_stop;
}

-- The other tasks of the event loop schedule nothing.
pub record SchedulesNothing (s s' : Sender) : Type 0 where
  pub keeps : Keeps s s'
  pub same_scheduled : s'.scheduled_requests ≡ s.scheduled_requests

admit-SchedulesNothing :
    (t : Clock) (request : PreparedRequest) (s : Sender) → SchedulesNothing s (admit t request s)
unfolding admit
admit-SchedulesNothing t request s = ground arith

pub Keeps-trans : (s t u : Sender) → Keeps s t → Keeps t u → Keeps s u
Keeps-trans s t u h k = record {
  same_config = k.same_config ∙ h.same_config;
  same_workload = k.same_workload ∙ h.same_workload;
  same_timeline = k.same_timeline ∙ h.same_timeline;
  same_planned = k.same_planned ∙ h.same_planned;
  same_stop = k.same_stop ∙ h.same_stop;
}

launch_or_backlog_lem :
    (t : Clock) (i j : ℕ) (request : PreparedRequest) (s : Sender)
    → request_at s i j ≡ some request
    → (s' : Sender) × (launch_or_backlog t i j s ≡ some s')
      × Keeps s s'
      × (s'.scheduled_requests ≡ s.scheduled_requests + 1)
unfolding launch_or_backlog
launch_or_backlog_lem t i j request s e =
    let one =
      count t.bucket scheduled 1 (record s { scheduled_requests = s.scheduled_requests + 1 }) in
    let a = admit-SchedulesNothing t request one in
    (
      admit t request one,
      rw (e, launch_or_backlog) refl,
      record {
        same_config = a.keeps.same_config;
        same_workload = a.keeps.same_workload;
        same_timeline = a.keeps.same_timeline;
        same_planned = a.keeps.same_planned;
        same_stop = a.keeps.same_stop;
      },
      a.same_scheduled,
    )

-- The second's point is in the timeline, with one count for each class of the planner.
pub record IsPlannable (s : Sender) (i : ℕ) (point : ScriptPoint) : Type 0 where
  pub placed : get_elem? s.timeline i ≡ some point
  pub consistent : IsConsistent (length s.workload.request_classes) point

IsPlannable-Keeps :
    (s s' : Sender) (i : ℕ) (point : ScriptPoint)
    → Keeps s s'
    → IsPlannable s i point
    → IsPlannable s' i point
IsPlannable-Keeps s s' i point k h = record {
  placed = ap (λ l. get_elem? l i) k.same_timeline ∙ h.placed;
  consistent = record {
    adds_up = h.consistent.adds_up;
    complete = h.consistent.complete ∙ ap (λ w. length w.request_classes) (sym k.same_workload);
  };
}

within-total : (n i : ℕ) (o : Option String) → IsWithin n i o → i < n → (c : String) × (o ≡ some c)
within-total n i none h l = absurd (omega arith)
within-total n i (some c) h l = (c, refl)

request_at-total :
    (s : Sender) (i j : ℕ) (point : ScriptPoint)
    → IsPlannable s i point
    → j < point.requests
    → (request : PreparedRequest) × (request_at s i j ≡ some request)
unfolding request_at
request_at-total s i j point h l =
    let within =
      request_class_for_index-IsWithin s.workload point.request_class_counts j
        (sym h.consistent.complete) in
    let a = h.consistent.adds_up in
    let (c, e) = within-total _ j _ within (omega arith) in
    (build_request s.workload c, rw (h.placed, e, request_at) refl)

-- The other tasks of the event loop schedule nothing, whenever they run.
abbrev pub IdleOthers : (ℕ → Sender → Sender) → Type 0
IdleOthers others = (j : ℕ) (v : Sender) → SchedulesNothing v (others j v)

-- How many of the requests of a range this worker takes.
abbrev pub taken : SenderConfig → ℕ → ℕ → ℕ → ℕ
taken c base j rounds = count_where (λ k. should_handle_request c (base + k)) (range_from j rounds)

abbrev pub Launches : Option Sender → Sender → ℕ → Type 0
Launches result s n =
    (s' : Sender) × (result ≡ some s')
    × Keeps s s'
    × (s'.scheduled_requests ≡ s.scheduled_requests + n)

taken-Keeps :
    (base j rounds : ℕ) (s t : Sender)
    → Keeps s t
    → taken t.config base j rounds ≡ taken s.config base j rounds
taken-Keeps base j rounds s t k = ap (λ c. taken c base j rounds) k.same_config

pub launch_requests_lem :
    (others : ℕ → Sender → Sender) (clock : ℕ → Clock) (i base : ℕ) (point : ScriptPoint)
    (rounds j : ℕ) (s : Sender)
    → IdleOthers others
    → IsPlannable s i point
    → j + rounds ≤ point.requests
    → Launches (launch_requests others clock i base rounds j s) s (taken s.config base j rounds)
unfolding launch_requests
launch_requests_lem others clock i base point zero j s idle h l = (
  s,
  refl,
  record {
    same_config = refl;
    same_workload = refl;
    same_timeline = refl;
    same_planned = refl;
    same_stop = refl;
  },
  omega arith,
)
launch_requests_lem others clock i base point (suc rounds) j s idle h l =
    let waited = others j s in
    let w = idle j s in
    let placed = IsPlannable-Keeps s waited i point w.keeps h in
    elim (Bool-cases (should_handle_request s.config (base + j))) [
      | inl handled ↦
          let (request, e) = request_at-total waited i j point placed (omega arith) in
          let (next_s, e1, k1, c1) = launch_or_backlog_lem (clock j) i j request waited e in
          let kept = Keeps-trans s waited next_s w.keeps k1 in
          let (last, e2, k2, c2) =
            launch_requests_lem others clock i base point rounds (suc j) next_s idle
              (IsPlannable-Keeps s next_s i point kept h) (omega arith) in
          (
            last,
            rw (handled, e1, launch_requests) e2,
            Keeps-trans s next_s last kept k2,
            rw (handled) (
                omega
                  (arith, c1, c2, w.same_scheduled, taken-Keeps base (suc j) rounds s next_s kept)),
          )
      | inr skipped ↦
          let (last, e2, k2, c2) =
            launch_requests_lem others clock i base point rounds (suc j) waited idle placed
              (omega arith) in
          (
            last,
            rw (skipped, launch_requests) e2,
            Keeps-trans s waited last w.keeps k2,
            rw (skipped) (
                omega
                  (arith, c2, w.same_scheduled, taken-Keeps base (suc j) rounds s waited w.keeps)),
          )
    ]
