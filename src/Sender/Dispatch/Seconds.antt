-- ===== src/Sender/Dispatch/Seconds.antt =====
-- `_dispatch_second`, and what it plans and schedules.
use predictive_autoscaling_k.Common.{
  List, Option, [], ap, arith, dec_le, false, get_elem?, leb, length, refl, some, suc, take, true,
  zero, ℕ, ◌+◌, ◌<◌, ◌∷◌, ◌≡◌, ◌≤◌,
}
use predictive_autoscaling_k.Script.{ScriptPoint}
use predictive_autoscaling_k.Script.Timeline.{requests_in}
use predictive_autoscaling_k.Sender.{Clock, Sender, flush_if_due}
use predictive_autoscaling_k.Sender.Dispatch.{
  assigned_request_count, dispatch_point, dispatch_second, others_of, plan_second,
}
use predictive_autoscaling_k.Sender.Dispatch.Launching.{
  IdleOthers, IsPlannable, Keeps-SameSetup, Keeps-trans, SameSetup, SchedulesNothing,
  launch_requests_lem, taken,
}
use predictive_autoscaling_k.Sender.Dispatch.Offsets.{build_second_request_offsets_lem}

others_of-IdleOthers :
    (s : Sender) (n : ℕ) (others : ℕ → Sender → Sender)
    → IdleOthers others
    → IdleOthers (others_of s n others)
others_of-IdleOthers s n others idle j v = ground (arith, idle j v)

flush_if_due-SchedulesNothing : (t : Clock) (s : Sender) → SchedulesNothing s (flush_if_due t s)
unfolding flush_if_due
flush_if_due-SchedulesNothing t s = ground arith

-- A second of `n` requests was dispatched: this worker's share of them is planned and scheduled.
abbrev pub Dispatches : Option Sender → Sender → ℕ → ℕ → Type 0
Dispatches result s base n =
    (s' : Sender) × (result ≡ some s')
    × (s'.planned_requests_so_far
        ≡ s.planned_requests_so_far + assigned_request_count s.config base n)
    × (s'.scheduled_requests ≡ s.scheduled_requests + assigned_request_count s.config base n)
    × SameSetup s s'

leb-true : (m n : ℕ) → m ≤ n → leb m n ≡ true
leb-true m n h = ground arith

leb-false : (m n : ℕ) → ¬ m ≤ n → leb m n ≡ false
leb-false m n h = ground arith

in_range {ℓ} : {A : Type ℓ} (i : ℕ) (xs : List A) (x : A) → get_elem? xs i ≡ some x → i < length xs
in_range i [] x e = cc
in_range zero (y ∷ ys) x e = omega arith
in_range (suc i) (y ∷ ys) x e = omega (arith, in_range i ys x e)

planned-SameSetup : (i n : ℕ) (s s' : Sender) → SameSetup (plan_second i n s) s' → SameSetup s s'
unfolding plan_second
planned-SameSetup i n s s' h = record {
  config_kept = h.config_kept;
  workload_kept = h.workload_kept;
  timeline_kept = h.timeline_kept;
  stop_kept = h.stop_kept;
}

dispatch_point_lem :
    (others : ℕ → Sender → Sender) (clock : ℕ → Clock) (i base : ℕ) (point : ScriptPoint)
    (s : Sender)
    → IdleOthers others
    → IsPlannable s i point
    → Dispatches (dispatch_point others clock i point base s) s base point.requests
unfolding dispatch_point assigned_request_count
dispatch_point_lem others clock i base point s idle h =
    let n = point.requests in
    let assigned = taken s.config base 0 n in
    let counted = plan_second i assigned s in
    elim (dec_le n 0) [
      | yes l ↦
          let e : n ≡ 0 = omega arith in
          let none_taken = ap (λ m. taken s.config base 0 m) e in
          (
            counted,
            rw (leb-true n 0 l, dispatch_point) refl,
            refl,
            omega (arith, none_taken),
            record {
              config_kept = refl;
              workload_kept = refl;
              timeline_kept = refl;
              stop_kept = refl;
            },
          )
      | no l ↦
          let (launched, e, k, c) =
            launch_requests_lem (others_of s n others) clock i base point n 0 counted
              (others_of-IdleOthers s n others idle)
              (record { placed = h.placed; consistent = h.consistent }) (omega arith) in
          let f = flush_if_due-SchedulesNothing (clock n) launched in
          (
            flush_if_due (clock n) launched,
            rw (leb-false n 0 l, e, dispatch_point) refl,
            omega (arith, f.keeps.same_planned, k.same_planned),
            omega (arith, f.same_scheduled, c),
            planned-SameSetup i assigned s _
                (Keeps-SameSetup counted _ (Keeps-trans counted launched _ k f.keeps)),
          )
    ]

-- A second that is in the script, and has one count for each class of the planner, is dispatched without
-- an IndexError when the other tasks schedule nothing in between. Both the planned and the scheduled
-- requests grow by the number of its requests that this worker takes, and the setup stays as it is.
pub dispatch_second-schedules :
    (others : ℕ → Sender → Sender) (clock : ℕ → Clock) (i : ℕ) (point : ScriptPoint) (s : Sender)
    → IdleOthers others
    → IsPlannable s i point
    → Dispatches
        (dispatch_second others clock i s)
        s
        (requests_in (take i s.timeline))
        point.requests
unfolding dispatch_second
dispatch_second-schedules others clock i point s idle h =
    let offset =
      build_second_request_offsets_lem i s.timeline (in_range i s.timeline point h.placed) in
    rw (h.placed, offset, dispatch_second)
      (dispatch_point_lem others clock i (requests_in (take i s.timeline)) point s idle h)
