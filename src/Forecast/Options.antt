-- ===== src/Forecast/Options.antt =====
-- What a validated option guarantees, and the alignment of a forecast's time.
use predictive_autoscaling_k.Common.{
  Bool-cases, arith, inl, inr, ltb, not, string_Eq, true, ℕ, ◌%◌, ◌&&◌, ◌+◌, ◌<◌, ◌≡◌, ◌≤◌, ◌⊎◌,
}
use predictive_autoscaling_k.Forecast.{
  ForecastOption, answer, has_entries, has_text, model_validate, not_positive,
  validate_configuration,
}
use predictive_autoscaling_k.Forecast.Predictions.{failed-ne-answer}
use predictive_autoscaling_k.Forecast.Service.{aligned_now}

-- An option that the validation lets through.
pub record IsValid (o : ForecastOption) : Type 0 where
  pub has_lookback : 0 < o.lookback_steps
  pub has_horizon : 0 < o.horizon_steps
  pub has_step : 0 < o.step_seconds
  pub has_query : (has_text o.prometheus_query ≡ true) ⊎ (has_entries o.prometheus_queries ≡ true)
  pub has_endpoint : has_text o.endpoint ≡ not o.is_local

validate_configuration-IsValid :
    (o p : ForecastOption)
    → validate_configuration o ≡ answer p
    → (p ≡ o)
      × ((has_text o.prometheus_query ≡ true) ⊎ (has_entries o.prometheus_queries ≡ true))
      × (has_text o.endpoint ≡ not o.is_local)
unfolding validate_configuration
validate_configuration-IsValid o p h = ground arith

-- The validation returns the option itself, and only if its three numbers of steps are positive, it has a
-- query, and it has an endpoint just when it is not local.
pub model_validate-IsValid :
    (o p : ForecastOption) → model_validate o ≡ answer p → (p ≡ o) × IsValid o
unfolding model_validate
model_validate-IsValid o p h =
    elim (Bool-cases (ltb 0 o.lookback_steps && ltb 0 o.horizon_steps && ltb 0 o.step_seconds)) [
      | inr refused ↦ absurd (failed-ne-answer not_positive p (rw refused at h))
      | inl positive ↦
          let (same, query, endpoint) = validate_configuration-IsValid o p (rw positive at h) in
          (
            same,
            record {
              has_lookback = ground arith;
              has_horizon = ground arith;
              has_step = ground arith;
              has_query = query;
              has_endpoint = endpoint;
            },
          )
    ]

-- The aligned time is a multiple of the step, no later than now, and less than a step earlier.
pub aligned_now_lem :
    (step_seconds now : ℕ)
    → 0 < step_seconds
    → (aligned_now step_seconds now % step_seconds ≡ 0)
      × (aligned_now step_seconds now ≤ now)
      × (now < aligned_now step_seconds now + step_seconds)
unfolding aligned_now
aligned_now_lem step_seconds now h = (grind arith, grind arith, grind arith)
