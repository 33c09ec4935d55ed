-- ===== src/Forecast/Rows.antt =====
-- forecasting-service/app/service.py: the rows that are built of a history, and the predictions that are
-- taken out of a response.
use predictive_autoscaling_k.Common.{
  Bool, List, Option, String, [], get_elem?, if◌then◌else◌, length, ltb, min, nat_Eq, nat_eq, none,
  not, some, string_Eq, suc, take, zero, ℕ, ◌*◌, ◌+◌, ◌-◌, ◌==◌, ◌||◌, ◌∷◌,
}
use predictive_autoscaling_k.Common.Dict.{Dict, lookup}
use predictive_autoscaling_k.Forecast.{
  Answer, ForecastError, MetricForecastRow, answer, bad_number, failed, history_too_short,
  index_out_of_range, missing_metrics, no_prediction_list, not_a_list, too_few_predictions,
  unsupported_target, ◌>>=◌,
}

abbrev pub linear_regression_history_metrics : List String
linear_regression_history_metrics =
    "total_requests_per_minute" ∷ "total_cpu_seconds_per_minute"
    ∷ "total_bandwidth_bytes_per_minute" ∷ []

-- The three series of a history, when it has all the metrics of the contract.
pub record Series (F : Type 0) : Type 0 where
  pub requests : List F
  pub cpu_seconds : List F
  pub bandwidth_bytes : List F

-- A field of a remote response: None, a list with what `float` makes of its items, or something else.
pub data JsonField (F : Type 0) : Type 0 where
  null : JsonField F
  items : List (Option F) → JsonField F
  other : JsonField F

-- `metric_name in LINEAR_REGRESSION_HISTORY_METRICS`
abbrev pub is_contract_metric : String → Bool
is_contract_metric metric_name =
    metric_name == "total_requests_per_minute"
    || metric_name == "total_cpu_seconds_per_minute"
    || metric_name == "total_bandwidth_bytes_per_minute"

module _ {F : Type 0} where
  -- `history[…]` of the three metrics; nothing when a metric is missing.
  unfoldable pub series_of : Dict String (List F) → Option (Series F)
  series_of history = elim (lookup "total_requests_per_minute" history) [
    | none ↦ none
    | some requests ↦ elim (lookup "total_cpu_seconds_per_minute" history) [
      | none ↦ none
      | some cpu_seconds ↦ elim (lookup "total_bandwidth_bytes_per_minute" history) [
        | none ↦ none
        | some bandwidth_bytes ↦ some (record {
          requests = requests;
          cpu_seconds = cpu_seconds;
          bandwidth_bytes = bandwidth_bytes;
        })
      ]
    ]
  ]

  abbrev pub found_or : ForecastError → Option F → Answer F
  found_or error none = failed error
  found_or error (some v) = answer v

  -- `_series_value_for_offset`
  unfoldable pub series_value_for_offset : List F → ℕ → Answer F
  series_value_for_offset series offset =
      if ltb offset (length series)
      then found_or index_out_of_range (get_elem? series (length series - 1 - offset))
      else failed history_too_short

  abbrev pub row_at : ℕ → Answer F → Answer F → Answer F → Answer (MetricForecastRow F)
  row_at datetime requests cpu_seconds bandwidth_bytes = do
    r ← requests
    c ← cpu_seconds
    b ← bandwidth_bytes
    answer (record {
      datetime = datetime;
      total_requests_per_minute = r;
      total_cpu_seconds_per_minute = c;
      total_bandwidth_bytes_per_minute = b;
    })

  -- The loop of `_build_linear_regression_history_rows`, from `offset` on: the newest row comes first.
  unfoldable pub rows_back_from : Series F → ℕ → ℕ → ℕ → ℕ → Answer (List (MetricForecastRow F))
  unfolding series_value_for_offset
  rows_back_from s generated_at step_seconds zero offset = answer []
  rows_back_from s generated_at step_seconds (suc rounds) offset = do
    row ←
        row_at (generated_at - offset * step_seconds) (series_value_for_offset s.requests offset)
          (series_value_for_offset s.cpu_seconds offset)
          (series_value_for_offset s.bandwidth_bytes offset)
    rows ← rows_back_from s generated_at step_seconds rounds (suc offset)
    answer (row ∷ rows)

  unfoldable pub build_linear_regression_history_rows :
      Dict String (List F) → ℕ → ℕ → ℕ → Answer (List (MetricForecastRow F))
  unfolding series_of rows_back_from
  build_linear_regression_history_rows history generated_at step_seconds required_rows =
      elim (series_of history) [
        | none ↦ failed missing_metrics
        | some s ↦ rows_back_from s generated_at step_seconds required_rows 0
      ]

  -- The loop of `_build_response_history_rows`, from `index` on: the oldest row comes first.
  unfoldable pub rows_on_from : Series F → ℕ → ℕ → ℕ → ℕ → Answer (List (MetricForecastRow F))
  rows_on_from s start_at step_seconds zero index = answer []
  rows_on_from s start_at step_seconds (suc rounds) index = do
    row ←
        row_at (start_at + index * step_seconds)
          (found_or index_out_of_range (get_elem? s.requests index))
          (found_or index_out_of_range (get_elem? s.cpu_seconds index))
          (found_or index_out_of_range (get_elem? s.bandwidth_bytes index))
    rows ← rows_on_from s start_at step_seconds rounds (suc index)
    answer (row ∷ rows)

  abbrev pub series_length : Series F → ℕ
  series_length s = min (min (length s.requests) (length s.cpu_seconds)) (length s.bandwidth_bytes)

  unfoldable pub build_response_history_rows :
      Dict String (List F) → ℕ → ℕ → Answer (List (MetricForecastRow F))
  unfolding series_of rows_on_from
  build_response_history_rows history generated_at step_seconds = elim (series_of history) [
    | none ↦ answer []
    | some s ↦
        if nat_eq (series_length s) 0
        then answer []
        else rows_on_from s (generated_at - step_seconds * (series_length s - 1)) step_seconds
            (series_length s) 0
  ]

  -- `getattr(row, metric_name)` for a metric of the contract.
  unfoldable pub row_metric : String → MetricForecastRow F → Option F
  row_metric metric_name row =
      if metric_name == "total_requests_per_minute"
      then some row.total_requests_per_minute
      else if metric_name == "total_cpu_seconds_per_minute"
      then some row.total_cpu_seconds_per_minute
      else if metric_name == "total_bandwidth_bytes_per_minute"
      then some row.total_bandwidth_bytes_per_minute
      else none

  unfoldable pub metrics_of : String → List (MetricForecastRow F) → Answer (List F)
  unfolding row_metric
  metrics_of metric_name [] = answer []
  metrics_of metric_name (row ∷ rows) = do
    v ← found_or unsupported_target (row_metric metric_name row)
    vs ← metrics_of metric_name rows
    answer (v ∷ vs)

  unfoldable pub extract_metric_predictions :
      List (MetricForecastRow F) → String → ℕ → Answer (List F)
  unfolding metrics_of
  extract_metric_predictions predictions metric_name expected_horizon =
      if not (is_contract_metric metric_name)
      then failed unsupported_target
      else if ltb (length predictions) expected_horizon
      then failed too_few_predictions
      else metrics_of metric_name (take expected_horizon predictions)

  -- `[float(item) for item in value]`
  unfoldable pub floats : List (Option F) → Answer (List F)
  floats [] = answer []
  floats (none ∷ vs) = failed bad_number
  floats (some v ∷ vs) = floats vs >>= λ rest. answer (v ∷ rest)

  unfoldable pub first_predictions : List F → ℕ → Answer (List F)
  first_predictions predictions expected_horizon =
      if ltb (length predictions) expected_horizon
      then failed too_few_predictions
      else answer (take expected_horizon predictions)

  -- The loop of `_extract_predictions` over the keys that are left.
  unfoldable pub extract_from : List String → Dict String (JsonField F) → ℕ → Answer (List F)
  unfolding floats first_predictions
  extract_from [] payload expected_horizon = failed no_prediction_list
  extract_from (key ∷ keys) payload expected_horizon =
      let next_key = extract_from keys payload expected_horizon in
      elim (lookup key payload) [
        | none ↦ next_key
        | some null ↦ next_key
        | some other ↦ failed not_a_list
        | some (items value) ↦
            floats value >>= λ predictions. first_predictions predictions expected_horizon
      ]

  unfoldable pub extract_predictions : Dict String (JsonField F) → ℕ → Answer (List F)
  unfolding extract_from
  extract_predictions payload expected_horizon =
      extract_from ("predictions" ∷ "forecast" ∷ "values" ∷ "prediction" ∷ []) payload
        expected_horizon
