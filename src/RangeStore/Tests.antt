-- ===== src/RangeStore/Tests.antt =====
-- Small runs of system-showcase/app/script_range_store.py.
use predictive_autoscaling_k.Common.{
  List, Option, [], arith, map, nat_Eq, none, range_from, refl, some, ◌∷◌, ◌≡◌,
}
use predictive_autoscaling_k.Common.Int.{pos, ℤ}
use predictive_autoscaling_k.RangeStore.{
  CsvFile, Point, ensure_index, new_store, point_of, slice_filled_series, starting_offset,
}
use predictive_autoscaling_k.RangeStore.Bisect.{bisect_right}
use predictive_autoscaling_k.RangeStore.Refinement.{slice_filled_series-requests_in}
use predictive_autoscaling_k.RangeStore.Window.{requests_in}

-- Five lines: one is unreadable, and the second at three is missing.
abbrev sample_file : CsvFile
sample_file = record {
  header_size = 20;
  lines =
      (10, some (1000000, pos 5))
      ∷ (11, some (2000000, pos 7))
      ∷ (3, none)
      ∷ (10, some (4000000, pos 2))
      ∷ (12, some (5500000, pos 9))
      ∷ [];
}

sample_offset : starting_offset (ensure_index (new_store 1) sample_file) 4200000 ≡ 44
unfolding starting_offset ensure_index new_store bisect_right
sample_offset = refl

abbrev requests_of : Option (List Point) → List ℤ
requests_of none = []
requests_of (some points) = map (λ p. p.requests) points

sample_points :
    requests_of
      (slice_filled_series (ensure_index (new_store 1) sample_file) sample_file 2000000 60000000 4)
    ≡ pos 7 ∷ pos 0 ∷ pos 2 ∷ pos 9 ∷ []
unfolding slice_filled_series ensure_index new_store bisect_right starting_offset
sample_points = refl

slice_filled_series-requests_in_example :
    slice_filled_series (ensure_index (new_store 2) sample_file) sample_file 2000000 60000000 4
    ≡ some
        (map (point_of 2000000 60000000 (requests_in sample_file.lines 2000000)) (range_from 0 4))
slice_filled_series-requests_in_example =
    slice_filled_series-requests_in 2 sample_file 2000000 60000000 4
      (omega arith, (omega arith, (omega arith, (omega arith, (omega arith, tt)))))
      (
        (omega arith, (tt, (omega arith, (omega arith, tt)))),
        ((tt, (omega arith, (omega arith, tt))), ((omega arith, tt), (tt, tt))),
      )
