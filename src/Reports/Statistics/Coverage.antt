-- ===== src/Reports/Statistics/Coverage.antt =====
-- Which seconds the file holds, and what can still be written.
use predictive_autoscaling_k.Common.{
  Bool, Bool-cases, List, Option, [], ap, ap₂, arith, inl, inr, leb, nat_Eq, none, range_from,
  range_from-append, refl, some, suc, sym, zero, ℕ, ◌++◌, ◌+◌, ◌-◌, ◌<◌, ◌∙◌, ◌∷◌, ◌≡◌, ◌≤◌,
}
use predictive_autoscaling_k.Common.Dict.{Dict, erase}
use predictive_autoscaling_k.Reports.Statistics.{
  Column, Counters, StatisticsReportWriter, closed_second, flush_closed, flush_through, pop_rows,
  record_count, reset,
}

-- The file has one row for each second from `first` through the last one flushed, in order.
abbrev pub seconds_of : List (ℕ × Counters) → List ℕ
seconds_of [] = []
seconds_of ((s, row) ∷ rows) = s ∷ seconds_of rows

pub record IsContiguous (first : ℕ) (w : StatisticsReportWriter) : Type 0 where
  pub last : ℕ
  pub begun : w.first_second ≡ some first
  pub flushed : w.last_flushed_second ≡ some last
  pub reached : first ≤ suc last
  pub covered : seconds_of w.file ≡ range_from first (suc last - first)

seconds_of-append :
    (xs ys : List (ℕ × Counters)) → seconds_of (xs ++ ys) ≡ seconds_of xs ++ seconds_of ys
seconds_of-append [] ys = refl
seconds_of-append ((s, row) ∷ xs) ys = rw (seconds_of-append xs ys) refl

seconds_of-pop_rows :
    (rounds current : ℕ) (d : Dict ℕ Counters)
    → seconds_of (pop_rows rounds current d).0 ≡ range_from current rounds
unfolding pop_rows
seconds_of-pop_rows zero current d = refl
seconds_of-pop_rows (suc rounds) current d =
    ap (λ l. current ∷ l) (seconds_of-pop_rows rounds (suc current) (erase current d))

-- A new run's file is empty, and its first second is still to be written.
pub reset-IsContiguous :
    (first : ℕ) (w : StatisticsReportWriter) → 0 < first → IsContiguous first (reset first w)
unfolding reset
reset-IsContiguous first w h =
    let e : suc (first - 1) - first ≡ 0 = omega arith in
    record {
      last = first - 1;
      begun = refl;
      flushed = refl;
      reached = omega arith;
      covered = rw e refl;
    }

record_count-IsContiguous :
    (first bucket n : ℕ) (column : Column) (w : StatisticsReportWriter)
    → IsContiguous first w
    → IsContiguous first (record_count bucket column n w)
unfolding record_count
record_count-IsContiguous first bucket n column w h = record {
  last = h.last;
  begun = h.begun;
  flushed = h.flushed;
  reached = h.reached;
  covered = h.covered;
}

flush_through-IsContiguous :
    (first through : ℕ) (w : StatisticsReportWriter) (h : IsContiguous first w)
    → IsContiguous first (flush_through through h.last w)
unfolding flush_through
flush_through-IsContiguous first through w h = elim (Bool-cases (leb through h.last)) [
  | inl e ↦ rw e h
  | inr e ↦
      let longer : h.last < through = ground arith in
      let reached = h.reached in
      let split : suc through - first ≡ (suc h.last - first) + (through - h.last) = omega arith in
      let next : first + (suc h.last - first) ≡ suc h.last = omega arith in
      rw e (record {
        last = through;
        begun = h.begun;
        flushed = refl;
        reached = omega arith;
        covered =
            seconds_of-append w.file (pop_rows (through - h.last) (suc h.last) w.counts).0
            ∙ ap₂ ◌++◌ h.covered (seconds_of-pop_rows (through - h.last) (suc h.last) w.counts)
            ∙ sym (
                ap (range_from first) split
                ∙ range_from-append first (suc h.last - first) (through - h.last)
                ∙ ap (λ k. range_from first (suc h.last - first) ++ range_from k (through - h.last))
                    next);
      })
]

-- At each flush, at whatever time, the file goes on to hold one row for each second from the first of
-- the run, in order, with no second left out or written twice.
pub flush_closed-IsContiguous :
    (first : ℕ) (final : Bool) (now : ℕ) (w : StatisticsReportWriter)
    → IsContiguous first w
    → IsContiguous first (flush_closed final now w)
unfolding flush_closed
flush_closed-IsContiguous first final now w h =
    simp (h.begun, h.flushed) (closes (closed_second final now first w.latest_seen_second))
  where
    closes :
        (o : Option ℕ)
        → IsContiguous first (elim o [ none ↦ w | some t ↦ flush_through t h.last w ])
    closes none = h
    closes (some t) = flush_through-IsContiguous first t w h
