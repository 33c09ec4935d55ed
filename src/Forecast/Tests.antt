-- ===== src/Forecast/Tests.antt =====
-- A local forecast over three steps of history, with whole numbers in place of floating-point ones.
use predictive_autoscaling_k.Common.{
  List, String, [], arith, false, get_elem?, length, nat_Eq, none, refl, some, string_Eq, true, ℕ,
  ◌*◌, ◌+◌, ◌-◌, ◌<◌, ◌∷◌, ◌≡◌,
}
use predictive_autoscaling_k.Common.Dict.{Dict, lookup}
use predictive_autoscaling_k.Forecast.{
  ForecastOption, MetricForecastRow, answer, failed, has_entries, has_text, model_name,
  model_validate, model_version, query_for_metric, request_failed, validate_configuration,
}
use predictive_autoscaling_k.Forecast.History.{history_rows-reversed}
use predictive_autoscaling_k.Forecast.Options.{IsValid, model_validate-IsValid}
use predictive_autoscaling_k.Forecast.Points.{last_sample, query_range_lem}
use predictive_autoscaling_k.Forecast.Predict.{
  fetch_feature_history, fetch_guardrail_history, fetch_metrics, predict, predict_local,
  predict_workload,
}
use predictive_autoscaling_k.Forecast.Prometheus.{
  RangeResponse, Reading, collect, finite, not_finite, points_from, query_range,
}
use predictive_autoscaling_k.Forecast.Rows.{
  Series, build_linear_regression_history_rows, build_response_history_rows, series_of,
}
use predictive_autoscaling_k.Forecast.Service.{
  Backend, ForecastResponse, PredictionResult, aligned_now, build_last_value_prediction_rows,
  last_value, load_options, options_of, present, primary_metric, render_query, replace,
  replace_from,
}
use predictive_autoscaling_k.Forecast.Workload.{FitsOption, predict_workload-HasLength}

abbrev local_option : ForecastOption
local_option = record {
  deployment = "demo";
  namespace = "default";
  service = "demo";
  ingress = "demo";
  app_pod_regex = "demo-.*";
  target_metric = "total_requests_per_minute";
  remote_target_metric = none;
  feature_metrics = "total_requests_per_minute" ∷ [];
  guardrail_queries = none;
  lookback_steps = 3;
  horizon_steps = 2;
  step_seconds = 60;
  model_full_name = "last_value:1";
  prometheus_query = some "requests{{{deployment}}}";
  prometheus_queries = none;
  is_local = true;
  endpoint = none;
  remote_contract = "legacy_prediction_list";
}

abbrev samples : List (ℕ × Reading ℕ)
samples = (480, finite 5) ∷ (540, not_finite) ∷ (600, finite 7) ∷ (600, finite 8) ∷ []

abbrev one_series : RangeResponse ℕ
one_series = record { success = true; result = samples ∷ [] }

abbrev server : Backend ℕ
server = record {
  range_response = λ _ _ _ _. answer one_series;
  predict_list = λ _ _. failed request_failed;
  predict_rows = λ _ _ _. failed request_failed;
}

abbrev local_result : PredictionResult ℕ
local_result = record {
  predictions = 8 ∷ 8 ∷ [];
  prediction_rows = [];
  current_time_origin = some 600;
  world_cup_time_origin = none;
  remote_endpoint = none;
  remote_contract = none;
  required_history_rows = none;
  provided_history_rows = none;
  buffered_history_rows = none;
}

abbrev local_response : ForecastResponse ℕ
local_response = record {
  deployment = "demo";
  contract_id = "demo_local";
  target_metric = "total_requests_per_minute";
  feature_metrics = "total_requests_per_minute" ∷ [];
  step_seconds = 60;
  history = ("total_requests_per_minute", 5 ∷ 0 ∷ 8 ∷ []) ∷ [];
  history_rows = [];
  observed = [];
  model_name = "last_value";
  model_version = "1";
  generated_at = 600;
  result = local_result;
}

answers :
    predict_workload 0 server (("demo_local", local_option) ∷ []) "demo_local" 655
    ≡ answer local_response
unfolding predict_workload load_options options_of model_validate validate_configuration has_text
    has_entries aligned_now fetch_feature_history fetch_metrics query_for_metric render_query
    replace replace_from query_range collect points_from present fetch_guardrail_history predict
    predict_local model_name model_version primary_metric last_value
    build_last_value_prediction_rows series_of build_response_history_rows
answers = refl

predict_workload-HasLength_example :
    (o : ForecastOption) × (options : Dict String ForecastOption) × (load_options
        (("demo_local", local_option) ∷ [])
      ≡ answer options)
    × (lookup "demo_local" options ≡ some o)
    × FitsOption o local_response
predict_workload-HasLength_example =
    predict_workload-HasLength 0 server (("demo_local", local_option) ∷ []) "demo_local" 655
      local_response answers

model_validate-IsValid_example : (local_option ≡ local_option) × IsValid local_option
unfolding model_validate validate_configuration has_text has_entries
model_validate-IsValid_example = model_validate-IsValid local_option local_option refl

query_range_lem_example :
    get_elem? (some 5 ∷ some 0 ∷ some 8 ∷ []) 2
    ≡ some (last_sample 0 false (480 + 2 * 60) samples (some 0))
unfolding query_range collect points_from
query_range_lem_example =
    query_range_lem 0 false 480 60 3 2 samples [] (some 5 ∷ some 0 ∷ some 8 ∷ []) (omega arith) refl

abbrev three_series : Series ℕ
three_series = record {
  requests = 1 ∷ 2 ∷ 3 ∷ [];
  cpu_seconds = 4 ∷ 5 ∷ 6 ∷ [];
  bandwidth_bytes = 7 ∷ 8 ∷ 9 ∷ [];
}

abbrev three_metrics : Dict String (List ℕ)
three_metrics =
    ("total_requests_per_minute", 1 ∷ 2 ∷ 3 ∷ [])
    ∷ ("total_cpu_seconds_per_minute", 4 ∷ 5 ∷ 6 ∷ [])
    ∷ ("total_bandwidth_bytes_per_minute", 7 ∷ 8 ∷ 9 ∷ [])
    ∷ []

history_rows-reversed_example :
    (newest_first oldest_first : List (MetricForecastRow ℕ)) × (build_linear_regression_history_rows
        three_metrics 600 60 3
      ≡ answer newest_first)
    × (build_response_history_rows three_metrics 600 60 ≡ answer oldest_first)
    × (length newest_first ≡ 3)
    × (length oldest_first ≡ 3)
    × ((k : ℕ) → k < 3 → get_elem? oldest_first (3 - 1 - k) ≡ get_elem? newest_first k)
unfolding series_of
history_rows-reversed_example =
    history_rows-reversed three_metrics three_series 3 600 60 refl
      (record { requests_length = refl; cpu_length = refl; bandwidth_length = refl }) (omega arith)
      (omega arith)
