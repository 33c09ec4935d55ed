-- ===== src/Forecast/Service.antt =====
-- forecasting-service/app/service.py: `ForecastingService`. The Prometheus server and the remote models
-- are a parameter: what they answer to a query or to a payload.
use Prim.Native.String.{len, ◌++◌ as str_append}
use text.Mathlib.Text.{find?, get?}
use predictive_autoscaling_k.Common.{
  List, Option, String, [], get_elem?, if◌then◌else◌, length, nat_Eq, none, some, string_Eq, suc,
  zero, ℕ, ◌*◌, ◌+◌, ◌-◌, ◌/◌, ◌∷◌,
}
use predictive_autoscaling_k.Common.Dict.{Dict}
use predictive_autoscaling_k.Forecast.{
  Answer, ForecastOption, MetricForecastRow, answer, failed, has_text, index_out_of_range,
  missing_value, model_validate, no_options, text_or, ◌>>=◌,
}
use predictive_autoscaling_k.Forecast.Prometheus.{RangeResponse}
use predictive_autoscaling_k.Forecast.Rows.{JsonField, Series, series_of}
use predictive_autoscaling_k.Reports.Requests.Flushing.{step}

pub record PredictionResult (F : Type 0) : Type 0 where
  pub predictions : List F
  pub prediction_rows : List (MetricForecastRow F)
  pub current_time_origin : Option ℕ
  pub world_cup_time_origin : Option ℕ
  pub remote_endpoint : Option String
  pub remote_contract : Option String
  pub required_history_rows : Option ℕ
  pub provided_history_rows : Option ℕ
  pub buffered_history_rows : Option ℕ

pub record RemotePredictionRequest (F : Type 0) : Type 0 where
  pub deployment : String
  pub target_metric : String
  pub feature_metrics : List String
  pub lookback_steps : ℕ
  pub horizon_steps : ℕ
  pub step_seconds : ℕ
  pub model_full_name : String
  pub generated_at : ℕ
  pub history : Dict String (List F)

-- What `LinearRegressionServingResponse.model_validate` keeps that the service reads.
pub record ServingResponse (F : Type 0) : Type 0 where
  pub current_time_origin : ℕ
  pub world_cup_time_origin : ℕ
  pub required_context_rows : Option ℕ
  pub provided_history_rows : Option ℕ
  pub buffered_history_rows : Option ℕ
  pub predictions : List (MetricForecastRow F)

-- `range_response query start end step`; the two kinds of remote models, the second with its validation.
pub record Backend (F : Type 0) : Type 0 where
  pub range_response : String → ℕ → ℕ → ℕ → Answer (RangeResponse F)
  pub predict_list : String → RemotePredictionRequest F → Answer (Dict String (JsonField F))
  pub predict_rows : String → ℕ → List (MetricForecastRow F) → Answer (ServingResponse F)

pub record ForecastResponse (F : Type 0) : Type 0 where
  pub deployment : String
  pub contract_id : String
  pub target_metric : String
  pub feature_metrics : List String
  pub step_seconds : ℕ
  pub history : Dict String (List F)
  pub history_rows : List (MetricForecastRow F)
  pub observed : Dict String (List (Option F))
  pub model_name : String
  pub model_version : String
  pub generated_at : ℕ
  pub result : PredictionResult F

-- `rendered.replace(…)` from the first match on; each match takes a round.
unfoldable pub replace_from : ℕ → String → String → String → String
replace_from zero placeholder value text = text
replace_from (suc rounds) placeholder value text = elim (find? text placeholder) [
  | none ↦ text
  | some i ↦
      let before = text_or (get? text 0 i) "" in
      let after = text_or (get? text (i + len placeholder) (len text)) "" in
      str_append before (str_append value (replace_from rounds placeholder value after))
]

unfoldable pub replace : String → String → String → String
unfolding replace_from
replace placeholder value text = replace_from (len text) placeholder value text

unfoldable pub render_query : String → ForecastOption → String
unfolding replace
render_query query o = replace "{{app_pod_regex}}" o.app_pod_regex (
    replace "{{ingress}}" o.ingress (
      replace "{{service}}" o.service
        (replace "{{namespace}}" o.namespace (replace "{{deployment}}" o.deployment query))))

-- The entries of the options file in its order; `json.load` has made their keys distinct.
unfoldable pub options_of : List (String × ForecastOption) → Answer (Dict String ForecastOption)
unfolding model_validate
options_of [] = answer []
options_of ((contract_id, payload) ∷ entries) = do
  o ← model_validate payload
  options ← options_of entries
  answer ((contract_id, o) ∷ options)

unfoldable pub load_options : List (String × ForecastOption) → Answer (Dict String ForecastOption)
unfolding options_of
load_options entries = options_of entries >>= λ options. elim options [
  | [] ↦ failed no_options
  | o ∷ rest ↦ answer (o ∷ rest)
]

-- `_aligned_now`
unfoldable pub aligned_now : ℕ → ℕ → ℕ
aligned_now step_seconds now = (now / step_seconds) * step_seconds

-- `option.remote_target_metric or option.feature_metrics[0]`
unfoldable pub primary_metric : ForecastOption → Answer String
unfolding has_text
primary_metric o =
    if has_text o.remote_target_metric
    then answer (text_or o.remote_target_metric "")
    else elim o.feature_metrics [ [] ↦ failed index_out_of_range | m ∷ _ ↦ answer m ]

module _ {F : Type 0} where
  -- `[float(value) for value in values]`
  unfoldable pub present : List (Option F) → Answer (List F)
  present [] = answer []
  present (none ∷ vs) = failed missing_value
  present (some v ∷ vs) = present vs >>= λ rest. answer (v ∷ rest)

  -- The last value of a series, or 0.0.
  unfoldable pub last_value : F → List F → F
  last_value zero_value series = elim (get_elem? series (length series - 1)) [
    | none ↦ zero_value
    | some v ↦ v
  ]

  unfoldable pub last_value_rows_from : F → Series F → ℕ → ℕ → ℕ → ℕ → List (MetricForecastRow F)
  unfolding last_value
  last_value_rows_from zero_value s generated_at step_seconds zero step = []
  last_value_rows_from zero_value s generated_at step_seconds (suc rounds) step =
      record {
        datetime = generated_at + step * step_seconds;
        total_requests_per_minute = last_value zero_value s.requests;
        total_cpu_seconds_per_minute = last_value zero_value s.cpu_seconds;
        total_bandwidth_bytes_per_minute = last_value zero_value s.bandwidth_bytes;
      }
      ∷ last_value_rows_from zero_value s generated_at step_seconds rounds (suc step)

  unfoldable pub build_last_value_prediction_rows :
      F → Dict String (List F) → ℕ → ℕ → ℕ → List (MetricForecastRow F)
  unfolding series_of last_value_rows_from
  build_last_value_prediction_rows zero_value history generated_at step_seconds horizon_steps =
      elim (series_of history) [
        | none ↦ []
        | some s ↦ last_value_rows_from zero_value s generated_at step_seconds horizon_steps 1
      ]

  abbrev pub series_or_empty : Option (List F) → List F
  series_or_empty none = []
  series_or_empty (some series) = series
