-- ===== src/Reports/Statistics.antt =====
-- `StatisticsReportWriter`: twelve counters for each second of wall-clock time.
pub mod Totals
pub mod Coverage
pub mod Pending
pub mod Late
use predictive_autoscaling_k.Common.{
  Bool, List, Option, [], false, if◌then◌else◌, leb, ltb, nat_Eq, nat_eq, none, some, suc, true,
  zero, ℕ, ◌++◌, ◌+◌, ◌-◌, ◌∷◌,
}
use predictive_autoscaling_k.Common.Dict.{Dict, erase, insert, lookup}

pub data Column : Type 0 where
  planned scheduled enqueued started started_immediate started_from_backlog : Column
  completed failed timed_out dropped_capacity dropped_backlog_full backlog_expired : Column

-- The place in COLUMN_NAMES.
abbrev pub column_index : Column → ℕ
column_index planned = 0
column_index scheduled = 1
column_index enqueued = 2
column_index started = 3
column_index started_immediate = 4
column_index started_from_backlog = 5
column_index completed = 6
column_index failed = 7
column_index timed_out = 8
column_index dropped_capacity = 9
column_index dropped_backlog_full = 10
column_index backlog_expired = 11

abbrev pub same_column : Column → Column → Bool
same_column a b = nat_eq (column_index a) (column_index b)

-- One second's counters.
abbrev pub Counters : Type 0
Counters = Column → ℕ

abbrev pub no_counts : Counters
no_counts _ = 0

abbrev pub add_count : Column → ℕ → Counters → Counters
add_count column count row c = if same_column c column then row c + count else row c

pub record StatisticsReportWriter : Type 0 where
  pub counts : Dict ℕ Counters
  pub first_second : Option ℕ
  pub last_flushed_second : Option ℕ
  pub latest_seen_second : Option ℕ
  pub file : List (ℕ × Counters)

abbrev pub new_writer : StatisticsReportWriter
new_writer = record {
  counts = [];
  first_second = none;
  last_flushed_second = none;
  latest_seen_second = none;
  file = [];
}

-- The second before `first_second` is the last one that counts as written.
unfoldable pub reset : ℕ → StatisticsReportWriter → StatisticsReportWriter
reset first_second w = record {
  counts = [];
  first_second = some first_second;
  last_flushed_second = some (first_second - 1);
  latest_seen_second = none;
  file = [];
}

-- `counts[second_bucket]`, which the defaultdict makes of zeros.
abbrev pub counters_at : ℕ → Dict ℕ Counters → Counters
counters_at second_bucket d = elim (lookup second_bucket d) [ none ↦ no_counts | some row ↦ row ]

abbrev pub later_of : Option ℕ → ℕ → Option ℕ
later_of none t = some t
later_of (some s) t = if ltb s t then some t else some s

unfoldable pub record_count : ℕ → Column → ℕ → StatisticsReportWriter → StatisticsReportWriter
record_count second_bucket column count w = record w {
  counts =
      insert second_bucket (add_count column count (counters_at second_bucket w.counts)) w.counts;
  latest_seen_second = later_of w.latest_seen_second second_bucket;
}

-- The loop `while current <= closed_through`, by the rounds that it makes: a row for each second, and the
-- counters that are left.
unfoldable pub pop_rows : ℕ → ℕ → Dict ℕ Counters → List (ℕ × Counters) × Dict ℕ Counters
pop_rows zero current counts = ([], counts)
pop_rows (suc rounds) current counts =
    let (rows, rest) = pop_rows rounds (suc current) (erase current counts) in
    ((current, counters_at current counts) ∷ rows, rest)

-- The part of `flush_closed` below its guards.
unfoldable pub flush_through : ℕ → ℕ → StatisticsReportWriter → StatisticsReportWriter
unfolding pop_rows
flush_through closed_through last_flushed w =
    if leb closed_through last_flushed
    then w
    else let (rows, rest) = pop_rows (closed_through - last_flushed) (suc last_flushed) w.counts in
      record w { counts = rest; last_flushed_second = some closed_through; file = w.file ++ rows }

-- `closed_through`, or nothing where the source returns: the last second seen at the final flush, and
-- else the second before the current one, once the run has begun.
abbrev pub closed_second : Bool → ℕ → ℕ → Option ℕ → Option ℕ
closed_second true now first_second latest_seen = latest_seen
closed_second false now first_second latest_seen =
    if ltb (now - 1) first_second then none else some (now - 1)

abbrev pub flush_if_open :
    Option ℕ → Option ℕ → Bool → ℕ → StatisticsReportWriter → StatisticsReportWriter
flush_if_open none last final now w = w
flush_if_open (some first_second) none final now w = w
flush_if_open (some first_second) (some last_flushed) final now w =
    elim (closed_second final now first_second w.latest_seen_second) [
      | none ↦ w
      | some closed_through ↦ flush_through closed_through last_flushed w
    ]

unfoldable pub flush_closed : Bool → ℕ → StatisticsReportWriter → StatisticsReportWriter
unfolding flush_through
flush_closed final now w = flush_if_open w.first_second w.last_flushed_second final now w
