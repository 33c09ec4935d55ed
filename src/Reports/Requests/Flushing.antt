-- ===== src/Reports/Requests/Flushing.antt =====
-- `RequestReportWriter`: the rows of a key in the file.
use predictive_autoscaling_k.Common.{
  Bool, Bool-cases, List, String, [], arith, false, if◌then◌else◌, inl, inr, leb, ltb, not, refl,
  true, ℕ, ◌&&◌, ◌||◌, ◌∷◌, ◌≡◌, ◌≤◌,
}
use predictive_autoscaling_k.Reports.Requests.{
  Key, RequestReportWriter, closed_rows, contains, flush_closed, key_eq, key_eq_iff, record_request,
  reset, sorted_items,
}
use predictive_autoscaling_k.Reports.Requests.Sorting.{
  entries_of, entries_of-add_at, entries_of-append, sorted_items-totals, total_of,
}
use predictive_autoscaling_k.Script.{second}

abbrev pub is_open : Bool → ℕ → Key → Bool
is_open final now k = not final && leb now k.0

pub no_entries : (k : Key) (items : List (Key × ℕ)) → entries_of k items ≡ 0 → total_of k items ≡ 0
unfolding entries_of total_of
no_entries k [] h = refl
no_entries k ((j, n) ∷ items) h = ground (arith, no_entries k items)

-- What one pass over the items does for a key.
pub record PassesOver (k : Key) (final : Bool) (now : ℕ) (items : List (Key × ℕ))
    (flushed : List Key) (result : List (Key × ℕ) × List Key) : Type 0 where
  pub row_total :
      total_of k result.0
      ≡ (if contains k flushed || is_open final now k then 0 else total_of k items)
  pub row_entries :
      entries_of k result.0
      ≡ (if contains k flushed || is_open final now k then 0 else entries_of k items)
  pub then_flushed :
      contains k result.1
      ≡ (contains k flushed || (not (is_open final now k) && ltb 0 (entries_of k items)))

pub key_eq_self : (k : Key) → key_eq k k ≡ true
key_eq_self k = (key_eq_iff k k).1 refl

-- The pass over an item of the key itself, which has no other item.
passes_own :
    (k : Key) (final : Bool) (now n : ℕ) (items : List (Key × ℕ)) (flushed : List Key)
    → entries_of k items ≡ 0
    → PassesOver k final now items flushed (closed_rows final now items flushed)
    → PassesOver k final now items (k ∷ flushed) (closed_rows final now items (k ∷ flushed))
    → PassesOver k final now
        ((k, n) ∷ items)
        flushed
        (closed_rows final now ((k, n) ∷ items) flushed)
unfolding closed_rows total_of entries_of contains
passes_own k final now n items flushed h skipped taken =
    let none_left = no_entries k items h in
    elim (Bool-cases (contains k flushed)) [
      | inl old ↦ rw old (record {
        row_total = ground (arith, skipped.row_total, old);
        row_entries = ground (arith, skipped.row_entries, old);
        then_flushed = ground (arith, skipped.then_flushed, old);
      })
      | inr new ↦ rw new (record {
        row_total = ground (arith, skipped.row_total, taken.row_total, key_eq_self k, none_left);
        row_entries = ground (arith, skipped.row_entries, taken.row_entries, key_eq_self k);
        then_flushed = ground (arith, skipped.then_flushed, taken.then_flushed, key_eq_self k);
      })
    ]

-- The pass over an item of another key.
passes_other :
    (k j : Key) (final : Bool) (now n : ℕ) (items : List (Key × ℕ)) (flushed : List Key)
    → key_eq j k ≡ false
    → PassesOver k final now items flushed (closed_rows final now items flushed)
    → PassesOver k final now items (j ∷ flushed) (closed_rows final now items (j ∷ flushed))
    → PassesOver k final now
        ((j, n) ∷ items)
        flushed
        (closed_rows final now ((j, n) ∷ items) flushed)
unfolding closed_rows total_of entries_of contains
passes_other k j final now n items flushed other skipped taken = record {
  row_total = ground (arith, skipped.row_total, taken.row_total, other);
  row_entries = ground (arith, skipped.row_entries, taken.row_entries, other);
  then_flushed = ground (arith, skipped.then_flushed, taken.then_flushed, other);
}

closed_rows-PassesOver :
    (k : Key) (final : Bool) (now : ℕ) (items : List (Key × ℕ)) (flushed : List Key)
    → entries_of k items ≤ 1
    → PassesOver k final now items flushed (closed_rows final now items flushed)
unfolding closed_rows total_of entries_of contains
closed_rows-PassesOver k final now [] flushed h = record {
  row_total = ground arith;
  row_entries = ground arith;
  then_flushed = ground arith;
}
closed_rows-PassesOver k final now ((j, n) ∷ items) flushed h = elim (Bool-cases (key_eq j k)) [
  | inl same ↦
      let e = (key_eq_iff j k).0 same in
      let alone : entries_of k items ≡ 0 = ground arith in
      rw e (
        passes_own k final now n items flushed alone
          (closed_rows-PassesOver k final now items flushed (omega arith))
          (closed_rows-PassesOver k final now items (k ∷ flushed) (omega arith)))
  | inr other ↦
      passes_other k j final now n items flushed other
        (closed_rows-PassesOver k final now items flushed (ground arith))
        (closed_rows-PassesOver k final now items (j ∷ flushed) (ground arith))
]

-- A key has one entry in memory at most, and one row of the file if it is flushed.
pub record IsOnce (w : RequestReportWriter) : Type 0 where
  pub unique : (k : Key) → entries_of k w.counts ≤ 1
  pub once : (k : Key) → entries_of k w.file ≤ (if contains k w.flushed_keys then 1 else 0)

pub passes_counts :
    (k : Key) (final : Bool) (now : ℕ) (w : RequestReportWriter)
    → entries_of k w.counts ≤ 1
    → PassesOver k final now
        (sorted_items w.counts)
        w.flushed_keys
        (closed_rows final now (sorted_items w.counts) w.flushed_keys)
passes_counts k final now w h =
    closed_rows-PassesOver k final now (sorted_items w.counts) w.flushed_keys
      (omega (arith, (sorted_items-totals k w.counts).1))

pub flush_closed-IsOnce :
    (final : Bool) (now : ℕ) (w : RequestReportWriter)
    → IsOnce w
    → IsOnce (flush_closed final now w)
unfolding flush_closed
flush_closed-IsOnce final now w h = record {
  unique = h.unique;
  once = λ k.
      let p = passes_counts k final now w (h.unique k) in
      ground (
        arith,
        h.once k,
        h.unique k,
        p.row_entries,
        p.then_flushed,
        (sorted_items-totals k w.counts).1,
        entries_of-append k w.file (closed_rows final now (sorted_items w.counts) w.flushed_keys).0,
      );
}

pub record_request-IsOnce :
    (second : ℕ) (url : String) (w : RequestReportWriter)
    → IsOnce w
    → IsOnce (record_request second url w)
unfolding record_request
record_request-IsOnce second url w h = record {
  unique = λ k. ground (arith, h.unique k, entries_of-add_at k (second, url) 1 w.counts);
  once = h.once;
}

-- What a run does with the writer: a request starts, or the closed seconds are flushed.
pub data Op : Type 0 where
  starts : ℕ → String → Op
  flushes : Bool → ℕ → Op

unfoldable pub step : Op → RequestReportWriter → RequestReportWriter
unfolding record_request flush_closed
step (starts second url) w = record_request second url w
step (flushes final now) w = flush_closed final now w

unfoldable pub run : List Op → RequestReportWriter → RequestReportWriter
unfolding step
run [] w = w
run (op ∷ ops) w = run ops (step op w)

pub reset-IsOnce : IsOnce reset
unfolding reset entries_of contains
reset-IsOnce = record { unique = λ k. omega arith; once = λ k. omega arith }

run-IsOnce : (ops : List Op) (w : RequestReportWriter) → IsOnce w → IsOnce (run ops w)
unfolding run step
run-IsOnce [] w h = h
run-IsOnce (starts second url ∷ ops) w h = run-IsOnce ops _ (record_request-IsOnce second url w h)
run-IsOnce (flushes final now ∷ ops) w h = run-IsOnce ops _ (flush_closed-IsOnce final now w h)

-- Whatever is recorded and flushed, and at whatever times, the file has one row at most for a second and
-- a URL.
pub run-entries_of : (ops : List Op) (k : Key) → entries_of k (run ops reset).file ≤ 1
run-entries_of ops k = ground (arith, IsOnce.once (run-IsOnce ops reset reset-IsOnce) k)
