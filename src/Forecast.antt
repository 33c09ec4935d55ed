-- ===== src/Forecast.antt =====
-- forecasting-service/app/models.py: the options of a forecast and the rows that it exchanges. `F` is the
-- type of floating-point numbers. A time is a whole number of seconds.
pub mod Prometheus
pub mod Rows
pub mod Service
pub mod Predict
pub mod Fetches
pub mod Workload
pub mod Options
pub mod Points
pub mod History
pub mod Predictions
mod Tests
use Prim.Native.String.{len}
use text.Mathlib.Text.{find?, get?}
use predictive_autoscaling_k.Common.{
  Bool, List, Option, String, [], false, if◌then◌else◌, ltb, nat_Eq, none, not, some, string_Eq,
  true, ℕ, ◌&&◌, ◌+◌, ◌==◌, ◌∷◌,
}
use predictive_autoscaling_k.Common.Dict.{Dict, lookup}

-- The exceptions that end a request.
pub data ForecastError : Type 0 where
  no_query_defined local_with_endpoint remote_without_endpoint not_positive : ForecastError
  no_options unknown_contract no_query_for_metric : ForecastError
  request_failed bad_status bad_sample missing_value : ForecastError
  unsupported_local_model missing_metrics history_too_short no_history_rows : ForecastError
  unsupported_target too_few_predictions not_a_list bad_number no_prediction_list : ForecastError
  index_out_of_range : ForecastError

pub data Answer {ℓ} (A : Type ℓ) : Type ℓ where
  answer : A → Answer A
  failed : ForecastError → Answer A

infixl 5 ◌>>=◌
abbrev pub ◌>>=◌ {ℓ κ} :
    {Value : Type ℓ} {Next : Type κ} → Answer Value → (Value → Answer Next) → Answer Next
given >>= then_do = elim given [ answer value ↦ then_do value | failed error ↦ failed error ]

pub record ForecastOption : Type 0 where
  pub deployment : String
  pub namespace : String
  pub service : String
  pub ingress : String
  pub app_pod_regex : String
  pub target_metric : String
  pub remote_target_metric : Option String
  pub feature_metrics : List String
  pub guardrail_queries : Option (Dict String String)
  pub lookback_steps : ℕ
  pub horizon_steps : ℕ
  pub step_seconds : ℕ
  pub model_full_name : String
  pub prometheus_query : Option String
  pub prometheus_queries : Option (Dict String String)
  pub is_local : Bool
  pub endpoint : Option String
  pub remote_contract : String

-- The truth of an optional text and of an optional dict.
unfoldable pub has_text : Option String → Bool
has_text none = false
has_text (some s) = not (s == "")

unfoldable pub has_entries : Option (Dict String String) → Bool
has_entries none = false
has_entries (some []) = false
has_entries (some (e ∷ d)) = true

-- `validate_configuration`
unfoldable pub validate_configuration : ForecastOption → Answer ForecastOption
unfolding has_text has_entries
validate_configuration o =
    if not (has_text o.prometheus_query) && not (has_entries o.prometheus_queries)
    then failed no_query_defined
    else if o.is_local && has_text o.endpoint
    then failed local_with_endpoint
    else if not o.is_local && not (has_text o.endpoint)
    then failed remote_without_endpoint
    else answer o

-- `ForecastOption.model_validate`: the bounds of the fields, and then the validator.
unfoldable pub model_validate : ForecastOption → Answer ForecastOption
unfolding validate_configuration
model_validate o =
    if ltb 0 o.lookback_steps && ltb 0 o.horizon_steps && ltb 0 o.step_seconds
    then validate_configuration o
    else failed not_positive

abbrev pub text_or : Option String → String → String
text_or none default = default
text_or (some s) default = s

-- The two sides of the first colon of `model_full_name`.
unfoldable pub model_name : ForecastOption → String
model_name o = elim (find? o.model_full_name ":") [
  | none ↦ o.model_full_name
  | some i ↦ text_or (get? o.model_full_name 0 i) o.model_full_name
]

unfoldable pub model_version : ForecastOption → String
model_version o = elim (find? o.model_full_name ":") [
  | none ↦ "latest"
  | some i ↦ text_or (get? o.model_full_name (i + 1) (len o.model_full_name)) "latest"
]

abbrev pub mapped_query : Option (Dict String String) → String → Option String
mapped_query none metric_name = none
mapped_query (some queries) metric_name = lookup metric_name queries

unfoldable pub query_for_metric : ForecastOption → String → Answer String
unfolding has_text
query_for_metric o metric_name = elim (mapped_query o.prometheus_queries metric_name) [
  | some query ↦ answer query
  | none ↦
      if has_text o.prometheus_query
      then answer (text_or o.prometheus_query "")
      else failed no_query_for_metric
]

pub record MetricForecastRow (F : Type 0) : Type 0 where
  pub datetime : ℕ
  pub total_requests_per_minute : F
  pub total_cpu_seconds_per_minute : F
  pub total_bandwidth_bytes_per_minute : F
