-- ===== src/Forecast/Prometheus.antt =====
-- forecasting-service/app/clients.py: `PrometheusClient.query_range` on the response of the server.
use predictive_autoscaling_k.Common.{
  Bool, List, Option, [], if◌then◌else◌, nat_Eq, none, replicate, some, string_Eq, suc, zero, ℕ,
  ◌*◌, ◌+◌, ◌∷◌,
}
use predictive_autoscaling_k.Common.Dict.{Dict, insert, lookup}
use predictive_autoscaling_k.Forecast.{Answer, answer, bad_sample, bad_status, failed, ◌>>=◌}

-- What `float` makes of a sample's value.
pub data Reading (F : Type 0) : Type 0 where
  finite : F → Reading F
  not_finite : Reading F
  unreadable : Reading F

-- The validated payload: whether its status is `success`, and the samples of each series. A sample's time
-- is the whole second that `int(float(timestamp))` makes of it.
pub record RangeResponse (F : Type 0) : Type 0 where
  pub success : Bool
  pub result : List (List (ℕ × Reading F))

module _ {F : Type 0} (zero_value : F) where
  -- A point that is missing: None, or 0.0.
  abbrev pub fill_value : Bool → Option F
  fill_value nullable = if nullable then none else some zero_value

  -- The loop over the samples: a later sample of the same second takes the place of an earlier one.
  unfoldable pub collect :
      Bool → List (ℕ × Reading F) → Dict ℕ (Option F) → Answer (Dict ℕ (Option F))
  collect nullable [] points_by_timestamp = answer points_by_timestamp
  collect nullable ((timestamp, finite v) ∷ values) points_by_timestamp =
      collect nullable values (insert timestamp (some v) points_by_timestamp)
  collect nullable ((timestamp, not_finite) ∷ values) points_by_timestamp =
      collect nullable values (insert timestamp (fill_value nullable) points_by_timestamp)
  collect nullable ((timestamp, unreadable) ∷ values) points_by_timestamp = failed bad_sample

  abbrev pub point_at : Bool → Dict ℕ (Option F) → ℕ → Option F
  point_at nullable points_by_timestamp timestamp = elim (lookup timestamp points_by_timestamp) [
    | none ↦ fill_value nullable
    | some p ↦ p
  ]

  -- The points of the indices from `index` on, one for each step.
  unfoldable pub points_from : Bool → Dict ℕ (Option F) → ℕ → ℕ → ℕ → ℕ → List (Option F)
  points_from nullable points_by_timestamp start_ts step_seconds zero index = []
  points_from nullable points_by_timestamp start_ts step_seconds (suc rounds) index =
      point_at nullable points_by_timestamp (start_ts + index * step_seconds)
      ∷ points_from nullable points_by_timestamp start_ts step_seconds rounds (suc index)

  -- `sample = payload.data.result[0]`, if there is a result.
  abbrev pub points_of : Bool → ℕ → ℕ → ℕ → List (List (ℕ × Reading F)) → Answer (List (Option F))
  points_of nullable start_ts step_seconds expected_points [] =
      answer (replicate expected_points (fill_value nullable))
  points_of nullable start_ts step_seconds expected_points (values ∷ _) =
      collect nullable values [] >>= λ points_by_timestamp.
      answer (points_from nullable points_by_timestamp start_ts step_seconds expected_points 0)

  unfoldable pub query_range :
      Bool → ℕ → ℕ → ℕ → Answer (RangeResponse F) → Answer (List (Option F))
  unfolding collect points_from
  query_range nullable start_ts step_seconds expected_points response = response >>= λ payload.
      if payload.success
      then points_of nullable start_ts step_seconds expected_points payload.result
      else failed bad_status
