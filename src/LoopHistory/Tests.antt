-- ===== src/LoopHistory/Tests.antt =====
-- A history of at most two loops.
use predictive_autoscaling_k.Common.{
  List, String, [], arith, false, none, refl, some, string_Eq, true, ◌∷◌, ◌≡◌,
}
use predictive_autoscaling_k.LoopHistory.{
  HistoryFile, LoopRecord, append_after, append_bounded, append_if_new, last_of, replace_last,
  scalers, sync_latest,
}
use predictive_autoscaling_k.LoopHistory.Bounds.{IsBounded, IsWithinLimit, sync_latest-IsBounded}
use predictive_autoscaling_k.LoopHistory.Repeats.{append_if_new-append_if_new}

abbrev loop : String → String → String → LoopRecord
loop key minute body = record {
  loop_key = key;
  stripped_key = key;
  minute_bucket = minute;
  body = body;
}

abbrev two_loops : List LoopRecord
two_loops = loop "a" "10:00" "first" ∷ loop "b" "10:01" "second" ∷ []

abbrev stored : HistoryFile
stored = scalers (("built_in", record { pod_loops = two_loops; node_loops = [] }) ∷ [])

drops_oldest :
    append_if_new 2 two_loops (some (loop "c" "10:02" "third"))
    ≡ (loop "b" "10:01" "second" ∷ loop "c" "10:02" "third" ∷ [], true)
unfolding append_if_new append_after append_bounded last_of
drops_oldest = refl

replaces_minute :
    append_if_new 2 two_loops (some (loop "c" "10:01" "third"))
    ≡ (loop "a" "10:00" "first" ∷ loop "c" "10:01" "third" ∷ [], true)
unfolding append_if_new append_after replace_last last_of
replaces_minute = refl

sync_latest-IsBounded_example :
    IsBounded 2 (sync_latest 2 "custom" (some (loop "c" "10:02" "third")) none stored).0
    × IsWithinLimit 2 (sync_latest 2 "custom" (some (loop "c" "10:02" "third")) none stored).1
sync_latest-IsBounded_example =
    sync_latest-IsBounded 2 "custom" (some (loop "c" "10:02" "third")) none stored
      ((omega arith, omega arith), tt)

append_if_new-append_if_new_example :
    append_if_new 2
      (append_if_new 2 two_loops (some (loop "c" "10:01" "third"))).0
      (some (loop "c" "10:01" "third"))
    ≡ ((append_if_new 2 two_loops (some (loop "c" "10:01" "third"))).0, false)
append_if_new-append_if_new_example =
    append_if_new-append_if_new 2 two_loops (loop "c" "10:01" "third") (omega arith) refl
