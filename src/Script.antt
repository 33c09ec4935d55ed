-- ===== src/Script.antt =====
-- custom-load-generator/load_sender.py, `load_script_points`: reading the script CSV into one
-- point per second. Times are microseconds since 0001-01-01T00:00 UTC, the resolution of `datetime`.
-- A row holds its cells as the standard library reads them: what `datetime.fromisoformat` makes of the
-- stripped text, what `float` makes of a count, or nothing where the row is too short.
pub mod Timeline
pub mod Filling
mod Tests
use predictive_autoscaling_k.Common.{
  Bool, List, Option, [], false, if◌then◌else◌, ltb, nat_eq, none, not, replicate, some, suc, sum,
  true, zero, ℕ, ◌++◌, ◌+◌, ◌-◌, ◌∷◌,
}
use predictive_autoscaling_k.Common.Int.{negsuc, pos, ℤ}

abbrev pub second : ℕ
second = 1000000

-- The first microsecond of the year 10000, which `datetime` does not hold.
abbrev pub datetime_end : ℕ
datetime_end = 315537897600000000

-- What a date with its time is: with a zone, its time in UTC, or `before_range` where that lies before the
-- year 1.

pub data TimestampCell : Type 0 where
  not_iso : TimestampCell
  before_range : TimestampCell
  naive : ℕ → TimestampCell
  aware : ℕ → TimestampCell

pub data CountCell : Type 0 where
  not_number fractional : CountCell
  integral : ℤ → CountCell

pub record Row : Type 0 where
  pub datetime : Option TimestampCell
  pub counts : List (Option CountCell)

-- What `csv.DictReader` yields: the header, if there is one, and the rows below it. `has_columns` is the
-- test that the header names every required column.
pub record CsvFile : Type 0 where
  pub exists : Bool
  pub has_columns : Bool
  pub rows : List Row

pub record ScriptPoint : Type 0 where
  pub timestamp : ℕ
  pub requests : ℕ
  pub request_class_counts : List ℕ

-- The errors that are raised, with the CSV line where the source names it; `overflow` is OverflowError.
pub data ScriptError : Type 0 where
  file_not_found missing_columns no_rows overflow : ScriptError
  missing_cell invalid_datetime no_timezone : ℕ → ScriptError
  invalid_count count_not_integer negative_count : ℕ → ScriptError
  not_sorted duplicate_timestamp : ℕ → ScriptError

pub data Loaded {ℓ} (A : Type ℓ) : Type ℓ where
  ok : A → Loaded A
  err : ScriptError → Loaded A

infixl 5 ◌>>=◌ ◌>>◌
abbrev pub ◌>>=◌ {ℓ κ} : {A : Type ℓ} {B : Type κ} → Loaded A → (A → Loaded B) → Loaded B
ok a >>= f = f a
err e >>= f = err e

abbrev pub ◌>>◌ {ℓ} : {B : Type ℓ} → Loaded (Unit {0}) → Loaded B → Loaded B
m >> k = m >>= λ _. k

abbrev pub raise_if : Bool → ScriptError → Loaded (Unit {0})
raise_if true e = err e
raise_if false e = ok tt

-- `_parse_timestamp`: `astimezone` takes an aware time to UTC, or overflows.
unfoldable pub parse_timestamp : Option TimestampCell → ℕ → Loaded ℕ
parse_timestamp none line_number = err (missing_cell line_number)
parse_timestamp (some not_iso) line_number = err (invalid_datetime line_number)
parse_timestamp (some (naive t)) line_number = err (no_timezone line_number)
parse_timestamp (some before_range) line_number = err overflow
parse_timestamp (some (aware t)) line_number = if ltb t datetime_end then ok t else err overflow

-- `_parse_request_count`
unfoldable pub parse_request_count : Option CountCell → ℕ → Loaded ℕ
parse_request_count none line_number = err (missing_cell line_number)
parse_request_count (some not_number) line_number = err (invalid_count line_number)
parse_request_count (some fractional) line_number = err (count_not_integer line_number)
parse_request_count (some (integral (pos n))) line_number = ok n
parse_request_count (some (integral (negsuc n))) line_number = err (negative_count line_number)

unfoldable pub parse_counts : List (Option CountCell) → ℕ → Loaded (List ℕ)
unfolding parse_request_count
parse_counts [] line_number = ok []
parse_counts (c ∷ cs) line_number = do
  n ← parse_request_count c line_number
  ns ← parse_counts cs line_number
  ok (n ∷ ns)

-- `last_time is not None and timestamp < last_time`, and the same for `==`.
abbrev pub is_earlier : ℕ → Option ℕ → Bool
is_earlier timestamp none = false
is_earlier timestamp (some last_time) = ltb timestamp last_time

abbrev pub is_same : ℕ → Option ℕ → Bool
is_same timestamp none = false
is_same timestamp (some last_time) = nat_eq timestamp last_time

abbrev pub or_else : Option ℕ → ℕ → ℕ
or_else none d = d
or_else (some n) d = n

-- A second of the gap between two rows: `ScriptPoint(current_time, 0, zero_request_class_counts)`.
abbrev pub idle_point : ℕ → ℕ → ScriptPoint
idle_point classes current_time = record {
  timestamp = current_time;
  requests = 0;
  request_class_counts = replicate classes 0;
}

-- The loop `while current_time < timestamp`, on fuel; `timestamp - current_time` is enough.
unfoldable pub fill_gap : ℕ → ℕ → ℕ → ℕ → List ScriptPoint
fill_gap classes zero current_time timestamp = []
fill_gap classes (suc fuel) current_time timestamp =
    let rest = fill_gap classes fuel (current_time + second) timestamp in
    if ltb current_time timestamp then idle_point classes current_time ∷ rest else []

-- The body of the loop over the rows, from line `line_number` on. Within the gap `current_time` grows past the
-- range of `datetime` only where `timestamp + timedelta(seconds=1)` does too.
unfoldable pub load_rows : ℕ → List Row → ℕ → Option ℕ → Option ℕ → Loaded (List ScriptPoint)
unfolding parse_timestamp parse_counts fill_gap
load_rows classes [] line_number current_time last_time = ok []
load_rows classes (row ∷ rows) line_number current_time last_time = do
  timestamp ← parse_timestamp row.datetime line_number
  request_class_counts ← parse_counts row.counts line_number
  raise_if (is_earlier timestamp last_time) (not_sorted line_number)
  raise_if (is_same timestamp last_time) (duplicate_timestamp line_number)
  raise_if (not (ltb (timestamp + second) datetime_end)) overflow
  let current = or_else current_time timestamp
  let point : ScriptPoint = record {
    timestamp = timestamp;
    requests = sum request_class_counts;
    request_class_counts = request_class_counts;
  }
  rest ← load_rows classes rows (suc line_number) (some (timestamp + second)) (some timestamp)
  ok (fill_gap classes (timestamp - current) current timestamp ++ point ∷ rest)

-- `if not points: raise`
abbrev pub require_points : List ScriptPoint → Loaded (List ScriptPoint)
require_points [] = err no_rows
require_points (p ∷ ps) = ok (p ∷ ps)

unfoldable pub load_script_points : CsvFile → ℕ → Loaded (List ScriptPoint)
unfolding load_rows
load_script_points csv_file classes = do
  raise_if (not csv_file.exists) file_not_found
  raise_if (not csv_file.has_columns) missing_columns
  points ← load_rows classes csv_file.rows 2 none none
  require_points points
