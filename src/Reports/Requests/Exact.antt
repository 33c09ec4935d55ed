-- ===== src/Reports/Requests/Exact.antt =====
-- `RequestReportWriter`: the counts in the file after the final flush.
use mathlib.Core.Bool.{false≢true}
use predictive_autoscaling_k.Common.{
  List, String, [], arith, false, if◌then◌else◌, refl, true, ℕ, ◌+◌, ◌<◌, ◌∷◌, ◌≡◌, ◌≤◌,
}
use predictive_autoscaling_k.Reports.Requests.{
  Key, RequestReportWriter, closed_rows, contains, flush_closed, key_eq, key_eq_iff, record_request,
  reset, sorted_items,
}
use predictive_autoscaling_k.Reports.Requests.Flushing.{
  IsOnce, Op, flush_closed-IsOnce, flushes, no_entries, passes_counts, record_request-IsOnce,
  reset-IsOnce, run, starts, step,
}
use predictive_autoscaling_k.Reports.Requests.Sorting.{
  sorted_items-totals, total_of, total_of-add_at, total_of-append,
}
use predictive_autoscaling_k.Script.{second}

-- Up to the time `clock`, the file has the full count of each flushed key, and none of another.
record IsExact (clock : ℕ) (w : RequestReportWriter) : Type 0 where
  single : IsOnce w
  written :
      (k : Key) → total_of k w.file ≡ (if contains k w.flushed_keys then total_of k w.counts else 0)
  closed : (k : Key) → contains k w.flushed_keys ≡ true → k.0 < clock

flush_closed-IsExact :
    (clock now : ℕ) (w : RequestReportWriter)
    → clock ≤ now
    → IsExact clock w
    → IsExact now (flush_closed false now w)
unfolding flush_closed
flush_closed-IsExact clock now w l h = record {
  single = flush_closed-IsOnce false now w h.single;
  written = λ k.
      let p = passes_counts k false now w (IsOnce.unique h.single k) in
      ground (
        arith,
        h.written k,
        p.row_total,
        p.then_flushed,
        sorted_items-totals k w.counts,
        no_entries k w.counts,
        total_of-append k w.file (closed_rows false now (sorted_items w.counts) w.flushed_keys).0,
      );
  closed = λ k e.
      let p = passes_counts k false now w (IsOnce.unique h.single k) in
      ground (arith, h.closed k, p.then_flushed, e);
}

record_request-IsExact :
    (clock second : ℕ) (url : String) (w : RequestReportWriter)
    → clock ≤ second
    → IsExact clock w
    → IsExact second (record_request second url w)
unfolding record_request
record_request-IsExact clock second url w l h = record {
  single = record_request-IsOnce second url w h.single;
  written = λ k. ground (
    arith,
    h.written k,
    total_of-add_at k (second, url) 1 w.counts,
    h.closed k,
    key_eq_iff (second, url) k,
  );
  closed = λ k e. let c = h.closed k e in omega arith;
}

-- The clock does not run back, and the final flush is yet to come.
abbrev pub IsOrdered : ℕ → List Op → Type 0
IsOrdered clock [] = Unit {0}
IsOrdered clock (starts second url ∷ ops) = (clock ≤ second) × IsOrdered second ops
IsOrdered clock (flushes true now ∷ ops) = ⊥
IsOrdered clock (flushes false now ∷ ops) = (clock ≤ now) × IsOrdered now ops

reset-IsExact : IsExact 0 reset
unfolding reset contains total_of
reset-IsExact = record {
  single = reset-IsOnce;
  written = λ k. refl;
  closed = λ k e. absurd (false≢true e);
}

-- How often a key is recorded in a run.
abbrev pub times_started : Key → List Op → ℕ
times_started k [] = 0
times_started k (starts second url ∷ ops) =
    (if key_eq (second, url) k then 1 else 0) + times_started k ops
times_started k (flushes final now ∷ ops) = times_started k ops

run-IsExact :
    (ops : List Op) (clock : ℕ) (w : RequestReportWriter)
    → IsOrdered clock ops
    → IsExact clock w
    → (end : ℕ) × IsExact end (run ops w)
unfolding run step
run-IsExact [] clock w o h = (clock, h)
run-IsExact (starts second url ∷ ops) clock w o h =
    run-IsExact ops second (record_request second url w) o.1
      (record_request-IsExact clock second url w o.0 h)
run-IsExact (flushes true now ∷ ops) clock w o h = elim o [ ]
run-IsExact (flushes false now ∷ ops) clock w o h =
    run-IsExact ops now (flush_closed false now w) o.1 (flush_closed-IsExact clock now w o.0 h)

run-total_of :
    (ops : List Op) (k : Key) (w : RequestReportWriter)
    → total_of k (run ops w).counts ≡ total_of k w.counts + times_started k ops
unfolding run step record_request flush_closed
run-total_of [] k w = omega arith
run-total_of (starts second url ∷ ops) k w = omega (
  arith,
  run-total_of ops k (record_request second url w),
  total_of-add_at k (second, url) 1 w.counts,
)
run-total_of (flushes final now ∷ ops) k w = run-total_of ops k (flush_closed final now w)

final-total_of :
    (end now : ℕ) (k : Key) (w : RequestReportWriter)
    → IsExact end w
    → total_of k (flush_closed true now w).file ≡ total_of k w.counts
unfolding flush_closed
final-total_of end now k w h =
    let p = passes_counts k true now w (IsOnce.unique h.single k) in
    ground (
      arith,
      h.written k,
      p.row_total,
      sorted_items-totals k w.counts,
      total_of-append k w.file (closed_rows true now (sorted_items w.counts) w.flushed_keys).0,
    )

-- When the clock does not run back, the file has after the final flush, for each second and URL, exactly
-- as many requests as were recorded there in the run.
pub run-final :
    (ops : List Op) (k : Key) (now : ℕ)
    → IsOrdered 0 ops
    → total_of k (flush_closed true now (run ops reset)).file ≡ times_started k ops
unfolding reset total_of
run-final ops k now o =
    let exact = run-IsExact ops 0 reset o reset-IsExact in
    omega (arith, final-total_of exact.0 now k (run ops reset) exact.1, run-total_of ops k reset)
