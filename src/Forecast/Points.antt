-- ===== src/Forecast/Points.antt =====
-- `PrometheusClient.query_range`: the points by their samples.
use predictive_autoscaling_k.Common.{
  Bool, List, Option, [], ap, arith, get_elem?, if◌then◌else◌, nat_Eq, refl, some, suc, sym, true,
  zero, ℕ, ◌*◌, ◌+◌, ◌<◌, ◌==◌, ◌∙◌, ◌∷◌, ◌≡◌,
}
use predictive_autoscaling_k.Common.Dict.{Dict, insert, lookup-insert}
use predictive_autoscaling_k.Forecast.{answer}
use predictive_autoscaling_k.Forecast.Predictions.{>>=-answer, answer-injective}
use predictive_autoscaling_k.Forecast.Prometheus.{
  Reading, collect, fill_value, finite, not_finite, point_at, points_from, query_range, unreadable,
}

module _ {F : Type 0} (zero_value : F) (nullable : Bool) where
  -- The value of a sample as a point.
  abbrev pub reading_point : Reading F → Option F
  reading_point (finite v) = some v
  reading_point not_finite = fill_value zero_value nullable
  reading_point unreadable = fill_value zero_value nullable

  -- The last sample of a second, or what was there before the samples.
  abbrev pub last_sample : ℕ → List (ℕ × Reading F) → Option F → Option F
  last_sample t [] before = before
  last_sample t ((u, v) ∷ values) before =
      last_sample t values (if u == t then reading_point v else before)

  point_at-insert :
      (u t : ℕ) (v : Option F) (d : Dict ℕ (Option F))
      → point_at zero_value nullable (insert u v d) t
        ≡ (if u == t then v else point_at zero_value nullable d t)
  point_at-insert u t v d = rw (lookup-insert u t v d, point_at) (ground arith)

  collect-point_at :
      (values : List (ℕ × Reading F)) (d result : Dict ℕ (Option F)) (t : ℕ)
      → collect zero_value nullable values d ≡ answer result
      → point_at zero_value nullable result t
        ≡ last_sample t values (point_at zero_value nullable d t)
  unfolding collect
  collect-point_at [] d result t h =
      ap (λ e. point_at zero_value nullable e t) (sym (answer-injective d result h))
  collect-point_at ((u, finite v) ∷ values) d result t h =
      collect-point_at values (insert u (some v) d) result t h
      ∙ ap (last_sample t values) (point_at-insert u t (some v) d)
  collect-point_at ((u, not_finite) ∷ values) d result t h =
      collect-point_at values (insert u (fill_value zero_value nullable) d) result t h
      ∙ ap (last_sample t values) (point_at-insert u t (fill_value zero_value nullable) d)
  collect-point_at ((u, unreadable) ∷ values) d result t h = cc

  get_elem?-points_from :
      (d : Dict ℕ (Option F)) (start_ts step_seconds rounds index i : ℕ)
      → i < rounds
      → get_elem? (points_from zero_value nullable d start_ts step_seconds rounds index) i
        ≡ some (point_at zero_value nullable d (start_ts + (index + i) * step_seconds))
  unfolding points_from
  get_elem?-points_from d start_ts step_seconds zero index i h = absurd (omega arith)
  get_elem?-points_from d start_ts step_seconds (suc rounds) index zero h =
      let e : index + 0 ≡ index = omega arith in rw e refl
  get_elem?-points_from d start_ts step_seconds (suc rounds) index (suc i) h =
      let e : suc index + i ≡ index + suc i = omega arith in
      rw (← e) (get_elem?-points_from d start_ts step_seconds rounds (suc index) i (omega arith))

  -- When the server answers with a series whose samples are all readable, the i-th point is the last sample
  -- of the second that is i steps after the start, and None or 0.0 when there is none or it is not finite.
  pub query_range_lem :
      (start_ts step_seconds expected_points i : ℕ) (values : List (ℕ × Reading F))
      (more : List (List (ℕ × Reading F))) (points : List (Option F))
      → i < expected_points
      → query_range zero_value nullable start_ts step_seconds expected_points
          (answer (record { success = true; result = values ∷ more }))
        ≡ answer points
      → get_elem? points i
        ≡ some (last_sample (start_ts + i * step_seconds) values (fill_value zero_value nullable))
  unfolding query_range
  query_range_lem start_ts step_seconds expected_points i values more points l h =
      let (d, e, h1) = >>=-answer (collect zero_value nullable values []) _ h in
      let index : 0 + i ≡ i = omega arith in
      let at_index = get_elem?-points_from d start_ts step_seconds expected_points 0 i l in
      ap (λ ps. get_elem? ps i) (sym (answer-injective _ points h1))
      ∙ at_index
      ∙ ap (λ j. some (point_at zero_value nullable d (start_ts + j * step_seconds))) index
      ∙ ap some (collect-point_at values [] d (start_ts + i * step_seconds) e)
