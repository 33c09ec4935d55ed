-- ===== src/Reports/Statistics/Totals.antt =====
-- `StatisticsReportWriter`: the totals of the counters in memory and the rows of the file.
use predictive_autoscaling_k.Common.{
  Bool, Bool-cases, List, Option, [], arith, if◌then◌else◌, inl, inr, leb, nat_Eq, none, refl, some,
  suc, sum_by, sum_by-append, zero, ℕ, ◌+◌, ◌-◌, ◌∷◌, ◌≡◌,
}
use predictive_autoscaling_k.Common.Dict.{Dict, erase, insert}
use predictive_autoscaling_k.Reports.Statistics.{
  Column, Counters, StatisticsReportWriter, add_count, closed_second, counters_at, flush_closed,
  flush_if_open, flush_through, pop_rows, record_count, reset, same_column,
}

abbrev pub column_sum : Column → List (ℕ × Counters) → ℕ
column_sum c = sum_by (λ e. e.1 c)

-- What a writer has of a column: in memory and in its file.
unfoldable pub recorded : Column → StatisticsReportWriter → ℕ
recorded c w = column_sum c w.counts + column_sum c w.file

column_sum-insert :
    (c : Column) (k : ℕ) (row : Counters) (d : Dict ℕ Counters)
    → column_sum c (insert k row d) + counters_at k d c ≡ column_sum c d + row c
column_sum-insert c k row [] = omega arith
column_sum-insert c k row ((j, w) ∷ d) = ground (arith, column_sum-insert c k row d)

column_sum-erase :
    (c : Column) (k : ℕ) (d : Dict ℕ Counters)
    → column_sum c (erase k d) + counters_at k d c ≡ column_sum c d
column_sum-erase c k [] = omega arith
column_sum-erase c k ((j, w) ∷ d) = ground (arith, column_sum-erase c k d)

column_sum-pop_rows :
    (c : Column) (rounds current : ℕ) (d : Dict ℕ Counters)
    → column_sum c (pop_rows rounds current d).0 + column_sum c (pop_rows rounds current d).1
      ≡ column_sum c d
unfolding pop_rows
column_sum-pop_rows c zero current d = omega arith
column_sum-pop_rows c (suc rounds) current d = omega (
  arith,
  column_sum-erase c current d,
  column_sum-pop_rows c rounds (suc current) (erase current d),
)

recorded-flush_through :
    (c : Column) (through last : ℕ) (w : StatisticsReportWriter)
    → recorded c (flush_through through last w) ≡ recorded c w
unfolding recorded flush_through
recorded-flush_through c through last w = elim (Bool-cases (leb through last)) [
  | inl e ↦ rw e refl
  | inr e ↦ rw e (
      omega (
        arith,
        sum_by-append (λ (r : ℕ × Counters). r.1 c) w.file
            (pop_rows (through - last) (suc last) w.counts).0,
        column_sum-pop_rows c (through - last) (suc last) w.counts,
      ))
]

-- A flush, at whatever time, moves counts to the file and changes no column's total.
pub recorded-flush_closed :
    (c : Column) (final : Bool) (now : ℕ) (w : StatisticsReportWriter)
    → recorded c (flush_closed final now w) ≡ recorded c w
unfolding flush_closed
recorded-flush_closed c final now w = go w.first_second w.last_flushed_second
  where
    closes :
        (last : ℕ) (o : Option ℕ)
        → recorded c (elim o [ none ↦ w | some t ↦ flush_through t last w ]) ≡ recorded c w
    closes last none = refl
    closes last (some t) = recorded-flush_through c t last w

    go : (first last : Option ℕ) → recorded c (flush_if_open first last final now w) ≡ recorded c w
    go none last = refl
    go (some f) none = refl
    go (some f) (some l) = closes l (closed_second final now f w.latest_seen_second)

-- Recording adds the count to the column's total, and leaves the other columns' totals as they are.
pub recorded-record_count :
    (c column : Column) (bucket n : ℕ) (w : StatisticsReportWriter)
    → recorded c (record_count bucket column n w)
      ≡ recorded c w + (if same_column c column then n else 0)
unfolding recorded record_count
recorded-record_count c column bucket n w =
    ground (
      arith,
      column_sum-insert c bucket (add_count column n (counters_at bucket w.counts)) w.counts,
    )

pub recorded-reset :
    (c : Column) (first : ℕ) (w : StatisticsReportWriter) → recorded c (reset first w) ≡ 0
unfolding recorded reset
recorded-reset c first w = refl
