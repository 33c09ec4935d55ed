-- ===== src/Sender/Dispatch/Running.antt =====
-- The loop of `run` over the seconds of a script, and what it schedules.
use mathlib.Core.Path.{subst}
use predictive_autoscaling_k.Common.{
  All, Bool, List, Option, [], ap, ap₂, arith, count_where, count_where-append, false, get_elem?,
  length, range_from, range_from-append, refl, some, suc, sym, take, zero, ℕ, ◌+◌, ◌<◌, ◌∙◌, ◌∷◌,
  ◌≡◌,
}
use predictive_autoscaling_k.Reports.Requests.Flushing.{step}
use predictive_autoscaling_k.Script.{CsvFile, ScriptPoint, load_script_points, ok}
use predictive_autoscaling_k.Script.Timeline.{
  IsConsistent, load_script_points-IsConsistent, load_script_points-requests_in, requests_in,
  requests_of,
}
use predictive_autoscaling_k.Sender.{Clock, Sender, SenderConfig, init}
use predictive_autoscaling_k.Sender.Dispatch.{
  assigned_request_count, dispatch_second, mark_dispatched, run_seconds, should_handle_request,
}
use predictive_autoscaling_k.Sender.Dispatch.Launching.{IdleOthers, Keeps-SameSetup, SameSetup}
use predictive_autoscaling_k.Sender.Dispatch.Seconds.{dispatch_second-schedules}
use predictive_autoscaling_k.Workload.{WorkloadConfig}

-- How many of the first `n` requests of the script this worker takes.
abbrev pub share : SenderConfig → ℕ → ℕ
share c n = assigned_request_count c 0 n

shifted :
    (c : SenderConfig) (base a n : ℕ)
    → count_where (λ i. should_handle_request c (base + i)) (range_from a n)
      ≡ count_where (λ i. should_handle_request c i) (range_from (base + a) n)
shifted c base a zero = refl
shifted c base a (suc n) =
    let e : base + suc a ≡ suc (base + a) = omega arith in
    let ih = shifted c base (suc a) n in ground (arith, rw e at ih)

share-add :
    (c : SenderConfig) (a n : ℕ) → share c (a + n) ≡ share c a + assigned_request_count c a n
unfolding assigned_request_count
share-add c a n =
    let taken_of : ℕ → Bool = should_handle_request c in
    let start : a + 0 ≡ a = omega arith in
    let begin : 0 + a ≡ a = omega arith in
    let tail =
      shifted c a 0 n ∙ ap (λ b. count_where taken_of (range_from b n)) (start ∙ sym begin) in
    let split =
      ap (count_where taken_of) (range_from-append 0 a n)
      ∙ count_where-append taken_of (range_from 0 a) (range_from (0 + a) n) in
    omega (arith, shifted c 0 0 (a + n), shifted c 0 0 a, tail, split)

find_point :
    (P : ScriptPoint → Type 0) (points : List ScriptPoint) (i : ℕ)
    → All P points
    → i < length points
    → (point : ScriptPoint) × (get_elem? points i ≡ some point)
      × P point
      × (requests_in (take (suc i) points) ≡ requests_in (take i points) + point.requests)
find_point P [] i h l = absurd (omega arith)
find_point P (p ∷ ps) zero h l = (p, refl, h.0, omega arith)
find_point P (p ∷ ps) (suc i) h l =
    let (q, e, hq, r) = find_point P ps i h.1 (omega arith) in (q, e, hq, omega (arith, r))

take-length : (points : List ScriptPoint) → take (length points) points ≡ points
take-length [] = refl
take-length (p ∷ ps) = ap (λ l. p ∷ l) (take-length ps)

-- What holds between the seconds of a run: the planner fits the script, and nobody asked to stop.
record IsReady (points : List ScriptPoint) (c : SenderConfig) (s : Sender) : Type 0 where
  same_points : s.timeline ≡ points
  same_config : s.config ≡ c
  consistent : All (IsConsistent (length s.workload.request_classes)) points
  not_stopped : s.stop_requested ≡ false

IsReady-SameSetup :
    (points : List ScriptPoint) (c : SenderConfig) (s s' : Sender)
    → SameSetup s s'
    → IsReady points c s
    → IsReady points c s'
IsReady-SameSetup points c s s' k h = record {
  same_points = k.timeline_kept ∙ h.same_points;
  same_config = k.config_kept ∙ h.same_config;
  consistent =
      subst (λ w. All (IsConsistent (length w.request_classes)) points) (sym k.workload_kept)
        h.consistent;
  not_stopped = k.stop_kept ∙ h.not_stopped;
}

share-grows :
    (points : List ScriptPoint) (c : SenderConfig) (i : ℕ) (point : ScriptPoint) (s : Sender)
    → IsReady points c s
    → requests_in (take (suc i) points) ≡ requests_in (take i points) + point.requests
    → share c (requests_in (take (suc i) points))
      ≡ share c (requests_in (take i points))
        + assigned_request_count s.config (requests_in (take i s.timeline)) point.requests
share-grows points c i point s h step =
    let same =
      ap₂ (λ d ps. assigned_request_count d (requests_in (take i ps)) point.requests) h.same_config
        h.same_points in
    omega (arith, ap (share c) step, share-add c (requests_in (take i points)) point.requests, same)

-- The seconds up to the `n`-th were dispatched.
abbrev RunsTo : Option Sender → SenderConfig → Sender → ℕ → ℕ → ℕ → Type 0
RunsTo result c s n from upto =
    (s' : Sender) × (result ≡ some s')
    × (s'.planned_requests_so_far + share c from ≡ s.planned_requests_so_far + share c upto)
    × (s'.scheduled_requests + share c from ≡ s.scheduled_requests + share c upto)
    × (s'.dispatched_seconds ≡ n)

run_seconds-step :
    (between : ℕ → Sender → Sender) (others : ℕ → ℕ → Sender → Sender) (clock : ℕ → ℕ → Clock)
    (rounds i : ℕ) (s d last : Sender)
    → s.stop_requested ≡ false
    → dispatch_second (others i) (clock i) i (between i s) ≡ some d
    → run_seconds between others clock rounds (suc i) (mark_dispatched i d) ≡ some last
    → run_seconds between others clock (suc rounds) i s ≡ some last
unfolding run_seconds
run_seconds-step between others clock rounds i s d last stop e e2 = simp (stop, e, e2) refl

run_seconds_lem :
    (points : List ScriptPoint) (c : SenderConfig) (between : ℕ → Sender → Sender)
    (others : ℕ → ℕ → Sender → Sender) (clock : ℕ → ℕ → Clock) (rounds i : ℕ) (s : Sender)
    → IdleOthers between
    → ((j : ℕ) → IdleOthers (others j))
    → IsReady points c s
    → s.dispatched_seconds ≡ i
    → i + rounds ≡ length points
    → RunsTo
        (run_seconds between others clock rounds i s)
        c
        s
        (i + rounds)
        (requests_in (take i points))
        (requests_in (take (i + rounds) points))
unfolding run_seconds
run_seconds_lem points c between others clock zero i s idle_between idle h d l =
    let e : i + 0 ≡ i = omega arith in (s, refl, rw e refl, rw e refl, omega (arith, d))
run_seconds_lem points c between others clock (suc rounds) i s idle_between idle h d l =
    let woken = between i s in
    let w = idle_between i s in
    let ready = IsReady-SameSetup points c s woken (Keeps-SameSetup s woken w.keeps) h in
    let (point, placed, consistent, step) = find_point _ points i ready.consistent (omega arith) in
    let (dispatched, e, p, q, k) =
      dispatch_second-schedules (others i) (clock i) i point woken (idle i) (record {
        placed = ap (λ ps. get_elem? ps i) ready.same_points ∙ placed;
        consistent = consistent;
      }) in
    let marked = mark_dispatched i dispatched in
    let (last, e2, p2, q2, d2) =
      run_seconds_lem points c between others clock rounds (suc i) marked idle_between idle
        (IsReady-SameSetup points c woken marked
          (record {
            config_kept = k.config_kept;
            workload_kept = k.workload_kept;
            timeline_kept = k.timeline_kept;
            stop_kept = k.stop_kept;
          })
          ready)
        refl (omega arith) in
    let grows = share-grows points c i point woken ready step in
    let upto : suc i + rounds ≡ i + suc rounds = omega arith in
    let ending = ap (λ n. share c (requests_in (take n points))) upto in
    (
      last,
      run_seconds-step between others clock rounds i s dispatched last h.not_stopped e e2,
      omega (arith, p, p2, grows, ending, w.keeps.same_planned),
      omega (arith, q, q2, grows, ending, w.same_scheduled),
      omega (arith, d2),
    )

-- A script is loaded whose rows have one cell for each class, and `run` goes through all its seconds while
-- no other task schedules or asks to stop. Then no second raises an IndexError; each second is dispatched;
-- and the planned and the scheduled requests are this worker's share of all the requests in the CSV.
pub run_seconds-schedules :
    (f : CsvFile) (c : SenderConfig) (w : WorkloadConfig) (points : List ScriptPoint) (first : ℕ)
    (between : ℕ → Sender → Sender) (others : ℕ → ℕ → Sender → Sender) (clock : ℕ → ℕ → Clock)
    → All (λ r. length r.counts ≡ length w.request_classes) f.rows
    → load_script_points f (length w.request_classes) ≡ ok points
    → IdleOthers between
    → ((j : ℕ) → IdleOthers (others j))
    → (s : Sender) × (run_seconds between others clock (length points) 0 (init c w points first)
        ≡ some s)
      × (s.planned_requests_so_far ≡ share c (requests_of f.rows))
      × (s.scheduled_requests ≡ share c (requests_of f.rows))
      × (s.dispatched_seconds ≡ length points)
unfolding init assigned_request_count
run_seconds-schedules f c w points first between others clock cells loaded idle_between idle =
    let (s, e, p, q, d) =
      run_seconds_lem points c between others clock (length points) 0 (init c w points first)
        idle_between idle
        (record {
          same_points = refl;
          same_config = refl;
          consistent = load_script_points-IsConsistent f _ points cells loaded;
          not_stopped = refl;
        })
        refl (omega arith) in
    let all_points : 0 + length points ≡ length points = omega arith in
    let whole =
      ap (λ n. requests_in (take n points)) all_points
      ∙ ap requests_in (take-length points)
      ∙ load_script_points-requests_in f _ points loaded in
    let ending = ap (share c) whole in
    (s, e, omega (arith, p, ending), omega (arith, q, ending), omega (arith, d))
