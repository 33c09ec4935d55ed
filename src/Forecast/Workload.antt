-- ===== src/Forecast/Workload.antt =====
-- What a response to a forecast request holds: its sizes.
use mathlib.Core.Path.{subst}
use predictive_autoscaling_k.Common.{
  Bool-cases, List, Option, String, [], ap, if◌then◌else◌, inl, inr, length, length-replicate, none,
  some, string_Eq, sym, ℕ, ◌==◌, ◌∙◌, ◌≡◌,
}
use predictive_autoscaling_k.Common.Dict.{Dict, lookup}
use predictive_autoscaling_k.Forecast.{ForecastOption, answer, has_text, model_name, text_or}
use predictive_autoscaling_k.Forecast.Fetches.{
  Covers, HasLength, fetch_guardrail_history-HasLength, fetch_metrics-Covers,
  fetch_metrics-HasLength, guardrail_names,
}
use predictive_autoscaling_k.Forecast.Predict.{
  chosen_option, fetch_feature_history, fetch_guardrail_history, predict, predict_legacy_remote,
  predict_linear_regression, predict_local, predict_workload, require_rows,
}
use predictive_autoscaling_k.Forecast.Predictions.{
  >>=-answer, answer-injective, extract_metric_predictions-length, extract_predictions-length,
  failed-ne-answer,
}
use predictive_autoscaling_k.Forecast.Rows.{
  build_linear_regression_history_rows, build_response_history_rows, extract_metric_predictions,
  extract_predictions,
}
use predictive_autoscaling_k.Forecast.Service.{
  Backend, ForecastResponse, PredictionResult, RemotePredictionRequest, aligned_now, load_options,
  primary_metric,
}

-- A response has the numbers of values that its option asks for.
pub record FitsOption {F : Type 0} (o : ForecastOption) (r : ForecastResponse F) : Type 0 where
  pub predicted_steps : length r.result.predictions ≡ o.horizon_steps
  pub history_steps : HasLength o.lookback_steps r.history
  pub observed_steps : HasLength o.horizon_steps r.observed
  pub every_metric : Covers o.lookback_steps o.feature_metrics r.history
  pub every_guardrail : Covers o.horizon_steps (guardrail_names o) r.observed

answered :
    {F : Type 0} (a r : PredictionResult F) (n : ℕ)
    → answer a ≡ answer r
    → length a.predictions ≡ n
    → length r.predictions ≡ n
answered a r n h l = ap (λ p. length p.predictions) (sym (answer-injective a r h)) ∙ l

module _ {F : Type 0} (zero_value : F) (backend : Backend F) where
  predict_local-length :
      (o : ForecastOption) (history : Dict String (List F)) (now : ℕ) (r : PredictionResult F)
      → predict_local zero_value backend o history now ≡ answer r
      → length r.predictions ≡ o.horizon_steps
  unfolding predict_local
  predict_local-length o history now r h = elim (Bool-cases (model_name o == "last_value")) [
    | inr unknown ↦ absurd (failed-ne-answer _ r (rw unknown at h))
    | inl known ↦
        let (metric, _, e) = >>=-answer (primary_metric o) _ (rw known at h) in
        let same = answer-injective _ r e in rw (← same) (length-replicate o.horizon_steps _)
  ]

  predict_legacy_remote-length :
      (o : ForecastOption) (history : Dict String (List F)) (now : ℕ) (r : PredictionResult F)
      → predict_legacy_remote zero_value backend o history now ≡ answer r
      → length r.predictions ≡ o.horizon_steps
  unfolding predict_legacy_remote
  predict_legacy_remote-length o history now r h =
      let payload : RemotePredictionRequest F = record {
        deployment = o.deployment;
        target_metric = o.target_metric;
        feature_metrics = o.feature_metrics;
        lookback_steps = o.lookback_steps;
        horizon_steps = o.horizon_steps;
        step_seconds = o.step_seconds;
        model_full_name = o.model_full_name;
        generated_at = now;
        history = history;
      } in
      let (raw, _, h1) = >>=-answer (backend.predict_list (text_or o.endpoint "") payload) _ h in
      let (ps, e, h2) = >>=-answer (extract_predictions raw o.horizon_steps) _ h1 in
      answered _ r o.horizon_steps h2 (extract_predictions-length raw o.horizon_steps ps e)

  predict_linear_regression-length :
      (o : ForecastOption) (history : Dict String (List F)) (now : ℕ) (r : PredictionResult F)
      → predict_linear_regression zero_value backend o history now ≡ answer r
      → length r.predictions ≡ o.horizon_steps
  unfolding predict_linear_regression
  predict_linear_regression-length o history now r h =
      let (built, _, h1) =
        >>=-answer
          (build_linear_regression_history_rows history now o.step_seconds o.lookback_steps) _ h in
      let (rows, _, h2) = >>=-answer (require_rows zero_value backend built) _ h1 in
      let (response, _, h3) =
        >>=-answer (backend.predict_rows (text_or o.endpoint "") now rows) _ h2 in
      let target =
        if has_text o.remote_target_metric
        then text_or o.remote_target_metric ""
        else o.target_metric in
      let (ps, e, h4) =
        >>=-answer (extract_metric_predictions response.predictions target o.horizon_steps) _ h3 in
      answered _ r o.horizon_steps h4
        (extract_metric_predictions-length response.predictions target o.horizon_steps ps e)

  predict-length :
      (o : ForecastOption) (history : Dict String (List F)) (now : ℕ) (r : PredictionResult F)
      → predict zero_value backend o history now ≡ answer r
      → length r.predictions ≡ o.horizon_steps
  unfolding predict
  predict-length o history now r h = elim (Bool-cases o.is_local) [
    | inl here_now ↦ predict_local-length o history now r (simp here_now at h)
    | inr remote ↦ elim (Bool-cases (o.remote_contract == "linear_regression_serving_v1")) [
      | inl linear ↦ predict_linear_regression-length o history now r (simp (remote, linear) at h)
      | inr legacy ↦ predict_legacy_remote-length o history now r (simp (remote, legacy) at h)
    ]
  ]

  chosen_option-some :
      (found : Option ForecastOption) (o : ForecastOption)
      → chosen_option zero_value backend found ≡ answer o
      → found ≡ some o
  chosen_option-some none o h = cc
  chosen_option-some (some p) o h = ap some (answer-injective p o h)

  -- A forecast that is answered is of a loaded option, the one with the contract's id. It has as many
  -- predictions as the option's horizon; its history has every feature metric of the option, and what it
  -- observed every guardrail. Each series of the history has as many values as the option's lookback, and each
  -- observed one as its horizon.
  pub predict_workload-HasLength :
      (entries : List (String × ForecastOption)) (contract_id : String) (now : ℕ)
      (r : ForecastResponse F)
      → predict_workload zero_value backend entries contract_id now ≡ answer r
      → (o : ForecastOption) × (options : Dict String ForecastOption) × (load_options entries
          ≡ answer options)
        × (lookup contract_id options ≡ some o)
        × FitsOption o r
  unfolding predict_workload fetch_feature_history
  predict_workload-HasLength entries contract_id now r h =
      let (options, loaded, h1) = >>=-answer (load_options entries) _ h in
      let (o, chosen, h2) =
        >>=-answer (chosen_option zero_value backend (lookup contract_id options)) _ h1 in
      let generated_at = aligned_now o.step_seconds now in
      let (history, fetched, h3) =
        >>=-answer (fetch_feature_history zero_value backend o generated_at) _ h2 in
      let (observed, guarded, h4) =
        >>=-answer (fetch_guardrail_history zero_value backend o generated_at) _ h3 in
      let (result, predicted, h5) =
        >>=-answer (predict zero_value backend o history generated_at) _ h4 in
      let (rows, _, h6) =
        >>=-answer (build_response_history_rows history generated_at o.step_seconds) _ h5 in
      (
        o,
        options,
        loaded,
        chosen_option-some (lookup contract_id options) o chosen,
        subst (FitsOption o) (answer-injective _ r h6) (record {
          predicted_steps = predict-length o history generated_at result predicted;
          history_steps =
              fetch_metrics-HasLength zero_value backend o generated_at o.feature_metrics [] history
                tt fetched;
          observed_steps =
              (fetch_guardrail_history-HasLength zero_value backend o generated_at observed
                guarded).0;
          every_metric =
              fetch_metrics-Covers zero_value backend o generated_at o.feature_metrics [] history
                fetched;
          every_guardrail =
              (fetch_guardrail_history-HasLength zero_value backend o generated_at observed
                guarded).1;
        }),
      )
