-- ===== src/Script/Tests.antt =====
-- A script of two rows with a gap of one second between them, and scripts that are refused.
use predictive_autoscaling_k.Common.{List, [], arith, refl, some, true, ℕ, ◌*◌, ◌∷◌, ◌≡◌}
use predictive_autoscaling_k.Common.Int.{negsuc, pos}
use predictive_autoscaling_k.Script.{
  CsvFile, Row, ScriptPoint, aware, err, fill_gap, integral, load_rows, load_script_points,
  negative_count, no_rows, not_sorted, ok, parse_counts, parse_request_count, parse_timestamp,
  second,
}
use predictive_autoscaling_k.Script.Filling.{
  HasPhase, IsEverySecond, load_script_points-IsEverySecond,
}
use predictive_autoscaling_k.Script.Timeline.{
  load_script_points-requests_in, requests_in, requests_of,
}

abbrev row : ℕ → ℕ → ℕ → Row
row t a b = record {
  datetime = some (aware t);
  counts = some (integral (pos a)) ∷ some (integral (pos b)) ∷ [];
}

abbrev gap_of_one : CsvFile
gap_of_one = record {
  exists = true;
  has_columns = true;
  rows = row (5 * second) 2 1 ∷ row (7 * second) 0 4 ∷ [];
}

abbrev three_points : List ScriptPoint
three_points =
    record { timestamp = 5 * second; requests = 3; request_class_counts = 2 ∷ 1 ∷ [] }
    ∷ record { timestamp = 6 * second; requests = 0; request_class_counts = 0 ∷ 0 ∷ [] }
    ∷ record { timestamp = 7 * second; requests = 4; request_class_counts = 0 ∷ 4 ∷ [] }
    ∷ []

loads_three : load_script_points gap_of_one 2 ≡ ok three_points
unfolding load_script_points load_rows parse_timestamp parse_counts parse_request_count fill_gap
loads_three = refl

refuses_unsorted :
    load_script_points
      (record gap_of_one { rows = row (5 * second) 2 1 ∷ row (4 * second) 0 4 ∷ [] })
      2
    ≡ err (not_sorted 3)
unfolding load_script_points load_rows parse_timestamp parse_counts parse_request_count fill_gap
refuses_unsorted = refl

refuses_negative :
    load_script_points
      (record gap_of_one {
        rows = record { datetime = some (aware 0); counts = some (integral (negsuc 0)) ∷ [] } ∷ [];
      })
      1
    ≡ err (negative_count 2)
unfolding load_script_points load_rows parse_timestamp parse_counts parse_request_count fill_gap
refuses_negative = refl

refuses_empty : load_script_points (record gap_of_one { rows = [] }) 2 ≡ err no_rows
unfolding load_script_points load_rows parse_timestamp parse_counts parse_request_count fill_gap
refuses_empty = refl

load_script_points-requests_in_example : requests_in three_points ≡ requests_of gap_of_one.rows
load_script_points-requests_in_example =
    load_script_points-requests_in gap_of_one 2 three_points loads_three

aware-injective : (s t : ℕ) → some (aware s) ≡ some (aware t) → s ≡ t
aware-injective s t e = cc

row-HasPhase : (n a b : ℕ) → HasPhase 0 (row (n * second) a b)
row-HasPhase n a b t e = let same = aware-injective (n * second) t e in omega (arith, same)

load_script_points-IsEverySecond_example : IsEverySecond (5 * second) three_points
load_script_points-IsEverySecond_example =
    load_script_points-IsEverySecond gap_of_one 0 2 three_points
      (row-HasPhase 5 2 1, (row-HasPhase 7 0 4, tt)) loads_three
