-- ===== src/Reports/Statistics/Late.antt =====
-- `StatisticsReportWriter`: a count that comes after its second was flushed.
use predictive_autoscaling_k.Common.{
  Bool, Bool-cases, List, Option, [], arith, inl, inr, leb, nat_Eq, none, refl, some, suc, zero, ℕ,
  ◌-◌, ◌<◌, ◌∙◌, ◌∷◌, ◌≡◌, ◌≢◌, ◌≤◌,
}
use predictive_autoscaling_k.Common.Dict.{Dict, erase, lookup, lookup-insert}
use predictive_autoscaling_k.Reports.Statistics.{
  Column, Counters, StatisticsReportWriter, add_count, closed_second, counters_at, flush_closed,
  flush_if_open, flush_through, pop_rows, record_count,
}

lookup-erase_ne : (j k : ℕ) (d : Dict ℕ Counters) → j ≢ k → lookup j (erase k d) ≡ lookup j d
lookup-erase_ne j k [] h = refl
lookup-erase_ne j k ((i, row) ∷ d) h = ground (arith, lookup-erase_ne j k d h)

lookup-pop_rows :
    (bucket rounds current : ℕ) (d : Dict ℕ Counters)
    → bucket < current
    → lookup bucket (pop_rows rounds current d).1 ≡ lookup bucket d
unfolding pop_rows
lookup-pop_rows bucket zero current d h = refl
lookup-pop_rows bucket (suc rounds) current d h =
    lookup-pop_rows bucket rounds (suc current) (erase current d) (omega arith)
    ∙ lookup-erase_ne bucket current d (omega arith)

-- The second was flushed, and these are its counters in memory.
record HoldsBack (bucket : ℕ) (row : Option Counters) (w : StatisticsReportWriter) : Type 0 where
  last : ℕ
  flushed : w.last_flushed_second ≡ some last
  too_late : bucket ≤ last
  held : lookup bucket w.counts ≡ row

flush_through-HoldsBack :
    (bucket through : ℕ) (row : Option Counters) (w : StatisticsReportWriter)
    (h : HoldsBack bucket row w)
    → HoldsBack bucket row (flush_through through h.last w)
unfolding flush_through
flush_through-HoldsBack bucket through row w h = elim (Bool-cases (leb through h.last)) [
  | inl e ↦ rw e h
  | inr e ↦
      let above : h.last < through = ground arith in
      let late = h.too_late in
      rw e (record {
        last = through;
        flushed = refl;
        too_late = omega arith;
        held =
            lookup-pop_rows bucket (through - h.last) (suc h.last) w.counts (omega arith) ∙ h.held;
      })
]

flush_closed-HoldsBack :
    (bucket : ℕ) (row : Option Counters) (final : Bool) (now : ℕ) (w : StatisticsReportWriter)
    → HoldsBack bucket row w
    → HoldsBack bucket row (flush_closed final now w)
unfolding flush_closed
flush_closed-HoldsBack bucket row final now w h = go w.first_second refl
  where
    closes :
        (o : Option ℕ)
        → HoldsBack bucket row (elim o [ none ↦ w | some t ↦ flush_through t h.last w ])
    closes none = h
    closes (some t) = flush_through-HoldsBack bucket t row w h

    go :
        (first : Option ℕ)
        → w.first_second ≡ first
        → HoldsBack bucket row (flush_if_open w.first_second w.last_flushed_second final now w)
    go none e = simp e h
    go (some f) e = simp (e, h.flushed) (closes (closed_second final now f w.latest_seen_second))

-- The flushes of the rest of a run, each final or not and at its own time.
abbrev pub flush_all : List (Bool × ℕ) → StatisticsReportWriter → StatisticsReportWriter
flush_all [] w = w
flush_all ((final, now) ∷ fs) w = flush_all fs (flush_closed final now w)

flush_all-HoldsBack :
    (bucket : ℕ) (row : Option Counters) (fs : List (Bool × ℕ)) (w : StatisticsReportWriter)
    → HoldsBack bucket row w
    → HoldsBack bucket row (flush_all fs w)
flush_all-HoldsBack bucket row [] w h = h
flush_all-HoldsBack bucket row ((final, now) ∷ fs) w h =
    flush_all-HoldsBack bucket row fs (flush_closed final now w)
      (flush_closed-HoldsBack bucket row final now w h)

-- When a count comes for a second that was flushed before, its second's counters, the new count among
-- them, stay in memory through any later flushes, a final one included.
pub late_count_stays :
    (bucket last n : ℕ) (column : Column) (fs : List (Bool × ℕ)) (w : StatisticsReportWriter)
    → w.last_flushed_second ≡ some last
    → bucket ≤ last
    → counters_at bucket (flush_all fs (record_count bucket column n w)).counts
      ≡ add_count column n (counters_at bucket w.counts)
unfolding record_count
late_count_stays bucket last n column fs w e l =
    let row = add_count column n (counters_at bucket w.counts) in
    let h = flush_all-HoldsBack bucket (some row) fs (record_count bucket column n w) (record {
      last = last;
      flushed = e;
      too_late = l;
      held = lookup-insert bucket bucket row w.counts ∙ ground arith;
    }) in
    rw (h.held, counters_at) refl
