-- ===== src/Forecast/Predict.antt =====
-- forecasting-service/app/service.py: `predict_workload`, from the fetch of the history to the response.
use predictive_autoscaling_k.Common.{
  List, Option, String, [], false, if◌then◌else◌, none, replicate, some, string_Eq, take, true, ℕ,
  ◌*◌, ◌-◌, ◌==◌, ◌∷◌,
}
use predictive_autoscaling_k.Common.Dict.{Dict, insert, lookup}
use predictive_autoscaling_k.Forecast.{
  Answer, ForecastOption, MetricForecastRow, answer, failed, has_text, model_name, model_version,
  no_history_rows, query_for_metric, text_or, unknown_contract, unsupported_local_model, ◌>>=◌,
}
use predictive_autoscaling_k.Forecast.Prometheus.{query_range}
use predictive_autoscaling_k.Forecast.Rows.{
  build_linear_regression_history_rows, build_response_history_rows, extract_metric_predictions,
  extract_predictions,
}
use predictive_autoscaling_k.Forecast.Service.{
  Backend, ForecastResponse, PredictionResult, RemotePredictionRequest, aligned_now,
  build_last_value_prediction_rows, last_value, load_options, present, primary_metric, render_query,
  series_or_empty,
}

module _ {F : Type 0} (zero_value : F) (backend : Backend F) where
  -- The loop of `_fetch_feature_history` over the metrics that are left.
  unfoldable pub fetch_metrics :
      ForecastOption → ℕ → List String → Dict String (List F) → Answer (Dict String (List F))
  unfolding query_for_metric render_query query_range present
  fetch_metrics o generated_at [] history = answer history
  fetch_metrics o generated_at (metric_name ∷ metrics) history = do
    raw_query ← query_for_metric o metric_name
    let start = generated_at - o.step_seconds * (o.lookback_steps - 1)
    let response =
        backend.range_response (render_query raw_query o) start generated_at o.step_seconds
    values ← query_range zero_value false start o.step_seconds o.lookback_steps response
    series ← present values
    fetch_metrics o generated_at metrics (insert metric_name series history)

  unfoldable pub fetch_feature_history : ForecastOption → ℕ → Answer (Dict String (List F))
  unfolding fetch_metrics
  fetch_feature_history o generated_at = fetch_metrics o generated_at o.feature_metrics []

  -- The loop of `_fetch_guardrail_history` over the queries that are left.
  unfoldable pub fetch_guardrails :
      ForecastOption
      → ℕ
      → Dict String String
      → Dict String (List (Option F))
      → Answer (Dict String (List (Option F)))
  unfolding render_query query_range
  fetch_guardrails o generated_at [] observed = answer observed
  fetch_guardrails o generated_at ((metric_name, raw_query) ∷ queries) observed = do
    let start = generated_at - o.step_seconds * (o.horizon_steps - 1)
    let response =
        backend.range_response (render_query raw_query o) start generated_at o.step_seconds
    values ← query_range zero_value true start o.step_seconds o.horizon_steps response
    fetch_guardrails o generated_at queries (insert metric_name values observed)

  -- `if not option.guardrail_queries: return {}`
  abbrev pub fetch_if_any :
      ForecastOption → ℕ → Option (Dict String String) → Answer (Dict String (List (Option F)))
  fetch_if_any o generated_at none = answer []
  fetch_if_any o generated_at (some queries) = fetch_guardrails o generated_at queries []

  unfoldable pub fetch_guardrail_history :
      ForecastOption → ℕ → Answer (Dict String (List (Option F)))
  unfolding fetch_guardrails
  fetch_guardrail_history o generated_at = fetch_if_any o generated_at o.guardrail_queries

  -- The result of the local model for its metric.
  abbrev pub last_value_result :
      ForecastOption → Dict String (List F) → ℕ → String → PredictionResult F
  last_value_result o history generated_at metric = record {
    predictions =
        replicate o.horizon_steps (last_value zero_value (series_or_empty (lookup metric history)));
    prediction_rows =
        build_last_value_prediction_rows zero_value history generated_at o.step_seconds
          o.horizon_steps;
    current_time_origin = some generated_at;
    world_cup_time_origin = none;
    remote_endpoint = none;
    remote_contract = none;
    required_history_rows = none;
    provided_history_rows = none;
    buffered_history_rows = none;
  }

  unfoldable pub predict_local :
      ForecastOption → Dict String (List F) → ℕ → Answer (PredictionResult F)
  unfolding model_name primary_metric last_value build_last_value_prediction_rows
  predict_local o history generated_at =
      if model_name o == "last_value"
      then (primary_metric o >>= λ metric. answer (last_value_result o history generated_at metric))
      else failed unsupported_local_model

  unfoldable pub predict_legacy_remote :
      ForecastOption → Dict String (List F) → ℕ → Answer (PredictionResult F)
  unfolding extract_predictions
  predict_legacy_remote o history generated_at = do
    let payload : RemotePredictionRequest F = record {
      deployment = o.deployment;
      target_metric = o.target_metric;
      feature_metrics = o.feature_metrics;
      lookback_steps = o.lookback_steps;
      horizon_steps = o.horizon_steps;
      step_seconds = o.step_seconds;
      model_full_name = o.model_full_name;
      generated_at = generated_at;
      history = history;
    }
    raw_response ← backend.predict_list (text_or o.endpoint "") payload
    predictions ← extract_predictions raw_response o.horizon_steps
    answer (record {
      predictions = predictions;
      prediction_rows = [];
      current_time_origin = some generated_at;
      world_cup_time_origin = none;
      remote_endpoint = o.endpoint;
      remote_contract = some o.remote_contract;
      required_history_rows = none;
      provided_history_rows = none;
      buffered_history_rows = none;
    })

  -- `LinearRegressionServingRequest` has at least one row.
  abbrev pub require_rows : List (MetricForecastRow F) → Answer (List (MetricForecastRow F))
  require_rows [] = failed no_history_rows
  require_rows (row ∷ rows) = answer (row ∷ rows)

  unfoldable pub predict_linear_regression :
      ForecastOption → Dict String (List F) → ℕ → Answer (PredictionResult F)
  unfolding build_linear_regression_history_rows extract_metric_predictions has_text
  predict_linear_regression o history generated_at = do
    built ←
        build_linear_regression_history_rows history generated_at o.step_seconds o.lookback_steps
    history_rows ← require_rows built
    response ← backend.predict_rows (text_or o.endpoint "") generated_at history_rows
    let remote_target_metric =
        if has_text o.remote_target_metric
        then text_or o.remote_target_metric ""
        else o.target_metric
    predictions ←
        extract_metric_predictions response.predictions remote_target_metric o.horizon_steps
    answer (record {
      predictions = predictions;
      prediction_rows = take o.horizon_steps response.predictions;
      current_time_origin = some response.current_time_origin;
      world_cup_time_origin = some response.world_cup_time_origin;
      remote_endpoint = o.endpoint;
      remote_contract = some o.remote_contract;
      required_history_rows = response.required_context_rows;
      provided_history_rows = response.provided_history_rows;
      buffered_history_rows = response.buffered_history_rows;
    })

  unfoldable pub predict : ForecastOption → Dict String (List F) → ℕ → Answer (PredictionResult F)
  unfolding predict_local predict_linear_regression predict_legacy_remote
  predict o history generated_at =
      if o.is_local
      then predict_local o history generated_at
      else if o.remote_contract == "linear_regression_serving_v1"
      then predict_linear_regression o history generated_at
      else predict_legacy_remote o history generated_at

  abbrev pub chosen_option : Option ForecastOption → Answer ForecastOption
  chosen_option none = failed unknown_contract
  chosen_option (some o) = answer o

  unfoldable pub predict_workload :
      List (String × ForecastOption) → String → ℕ → Answer (ForecastResponse F)
  unfolding load_options aligned_now fetch_feature_history fetch_guardrail_history predict
      build_response_history_rows model_name model_version
  predict_workload entries contract_id now = do
    options ← load_options entries
    o ← chosen_option (lookup contract_id options)
    let generated_at = aligned_now o.step_seconds now
    history ← fetch_feature_history o generated_at
    observed ← fetch_guardrail_history o generated_at
    prediction_result ← predict o history generated_at
    history_rows ← build_response_history_rows history generated_at o.step_seconds
    answer (record {
      deployment = o.deployment;
      contract_id = contract_id;
      target_metric = o.target_metric;
      feature_metrics = o.feature_metrics;
      step_seconds = o.step_seconds;
      history = history;
      history_rows = history_rows;
      observed = observed;
      model_name = model_name o;
      model_version = model_version o;
      generated_at = generated_at;
      result = prediction_result;
    })
