-- ===== src/Forecast/Fetches.antt =====
-- What `_fetch_feature_history` and `_fetch_guardrail_history` answer: which series, of which lengths.
-- Each series of a dict has this many values.
use mathlib.Core.Path.{subst}
use predictive_autoscaling_k.Common.{
  All, Bool-cases, List, Option, String, [], arith, false, inl, inr, length, map, none, refl, some,
  string_Eq, string_Eq, true, ℕ, ◌*◌, ◌-◌, ◌==◌, ◌∙◌, ◌∷◌, ◌≡◌,
}
use predictive_autoscaling_k.Common.Dict.{Dict, insert, lookup, lookup-insert}
use predictive_autoscaling_k.Forecast.{ForecastOption, answer, query_for_metric}
use predictive_autoscaling_k.Forecast.Predict.{
  fetch_guardrail_history, fetch_guardrails, fetch_if_any, fetch_metrics,
}
use predictive_autoscaling_k.Forecast.Predictions.{
  >>=-answer, answer-injective, length-present, length-query_range,
}
use predictive_autoscaling_k.Forecast.Prometheus.{query_range}
use predictive_autoscaling_k.Forecast.Service.{Backend, present, render_query}

abbrev pub HasLength : {A : Type 0} → ℕ → Dict String (List A) → Type 0
HasLength n d = All (λ e. length e.1 ≡ n) d

-- The dict has a series of this many values under the key.
abbrev Holds : {A : Type 0} → ℕ → Dict String (List A) → String → Type 0
Holds {A} n d k = (v : List A) × (lookup k d ≡ some v) × (length v ≡ n)

-- Each of the keys has a series of this many values.
abbrev pub Covers : {A : Type 0} → ℕ → List String → Dict String (List A) → Type 0
Covers n keys d = All (Holds n d) keys

abbrev names_of : Option (Dict String String) → List String
names_of none = []
names_of (some queries) = map (λ q. q.0) queries

abbrev pub guardrail_names : ForecastOption → List String
guardrail_names o = names_of o.guardrail_queries

insert-HasLength :
    {A : Type 0} (n : ℕ) (k : String) (v : List A) (d : Dict String (List A))
    → length v ≡ n
    → HasLength n d
    → HasLength n (insert k v d)
insert-HasLength n k v [] l h = (l, tt)
insert-HasLength n k v ((j, w) ∷ d) l h = elim (Bool-cases (j == k)) [
  | inl same ↦ rw same (l, h.1)
  | inr other_key ↦ rw other_key (h.0, insert-HasLength n k v d l h.1)
]

insert-Holds :
    {A : Type 0} (n : ℕ) (j k : String) (v : List A) (d : Dict String (List A))
    → length v ≡ n
    → Holds n d k
    → Holds n (insert j v d) k
insert-Holds n j k v d l (w, found, sized) = elim (Bool-cases (j == k)) [
  | inl same ↦ (v, lookup-insert j k v d ∙ rw same refl, l)
  | inr other_key ↦ (w, lookup-insert j k v d ∙ rw other_key found, sized)
]

insert-Holds_own :
    {A : Type 0} (n : ℕ) (k : String) (v : List A) (d : Dict String (List A))
    → length v ≡ n
    → Holds n (insert k v d) k
insert-Holds_own n k v d l =
    let same : (k == k) ≡ true = ground (arith, string_Eq.same_iff k k) in
    (v, lookup-insert k k v d ∙ rw same refl, l)

module _ {F : Type 0} (zero_value : F) (backend : Backend F) (o : ForecastOption) (now : ℕ) where
  -- A round of the loop over the metrics.
  fetch_metrics-round :
      (m : String) (metrics : List String) (history result : Dict String (List F))
      → fetch_metrics zero_value backend o now (m ∷ metrics) history ≡ answer result
      → (series : List F) × (length series ≡ o.lookback_steps)
        × (fetch_metrics zero_value backend o now metrics (insert m series history) ≡ answer result)
  unfolding fetch_metrics
  fetch_metrics-round m metrics history result h =
      let (raw_query, _, h1) = >>=-answer (query_for_metric o m) _ h in
      let start = now - o.step_seconds * (o.lookback_steps - 1) in
      let response = backend.range_response (render_query raw_query o) start now o.step_seconds in
      let (values, e, h2) =
        >>=-answer (query_range zero_value false start o.step_seconds o.lookback_steps response) _
          h1 in
      let (series, p, h3) = >>=-answer (present values) _ h2 in
      let points =
        length-query_range zero_value false start o.step_seconds o.lookback_steps response values
          e in
      (series, length-present values series p ∙ points, h3)

  pub fetch_metrics-HasLength :
      (metrics : List String) (history result : Dict String (List F))
      → HasLength o.lookback_steps history
      → fetch_metrics zero_value backend o now metrics history ≡ answer result
      → HasLength o.lookback_steps result
  unfolding fetch_metrics
  fetch_metrics-HasLength [] history result sized h =
      subst (HasLength o.lookback_steps) (answer-injective history result h) sized
  fetch_metrics-HasLength (m ∷ metrics) history result sized h =
      let (series, l, h1) = fetch_metrics-round m metrics history result h in
      fetch_metrics-HasLength metrics (insert m series history) result
        (insert-HasLength o.lookback_steps m series history l sized) h1

  fetch_metrics-Holds :
      (k : String) (metrics : List String) (history result : Dict String (List F))
      → Holds o.lookback_steps history k
      → fetch_metrics zero_value backend o now metrics history ≡ answer result
      → Holds o.lookback_steps result k
  unfolding fetch_metrics
  fetch_metrics-Holds k [] history result held h =
      subst (λ d. Holds o.lookback_steps d k) (answer-injective history result h) held
  fetch_metrics-Holds k (m ∷ metrics) history result held h =
      let (series, l, h1) = fetch_metrics-round m metrics history result h in
      fetch_metrics-Holds k metrics (insert m series history) result
        (insert-Holds o.lookback_steps m k series history l held) h1

  pub fetch_metrics-Covers :
      (metrics : List String) (history result : Dict String (List F))
      → fetch_metrics zero_value backend o now metrics history ≡ answer result
      → Covers o.lookback_steps metrics result
  fetch_metrics-Covers [] history result h = tt
  fetch_metrics-Covers (m ∷ metrics) history result h =
      let (series, l, h1) = fetch_metrics-round m metrics history result h in
      (
        fetch_metrics-Holds m metrics (insert m series history) result
            (insert-Holds_own o.lookback_steps m series history l) h1,
        fetch_metrics-Covers metrics (insert m series history) result h1,
      )

  -- A round of the loop over the guardrails.
  fetch_guardrails-round :
      (m raw_query : String) (queries : Dict String String)
      (observed result : Dict String (List (Option F)))
      → fetch_guardrails zero_value backend o now ((m, raw_query) ∷ queries) observed
        ≡ answer result
      → (values : List (Option F)) × (length values ≡ o.horizon_steps)
        × (fetch_guardrails zero_value backend o now queries (insert m values observed)
            ≡ answer result)
  unfolding fetch_guardrails
  fetch_guardrails-round m raw_query queries observed result h =
      let start = now - o.step_seconds * (o.horizon_steps - 1) in
      let response = backend.range_response (render_query raw_query o) start now o.step_seconds in
      let (values, e, h1) =
        >>=-answer (query_range zero_value true start o.step_seconds o.horizon_steps response) _
          h in
      (
        values,
        length-query_range zero_value true start o.step_seconds o.horizon_steps response values e,
        h1,
      )

  fetch_guardrails-HasLength :
      (queries : Dict String String) (observed result : Dict String (List (Option F)))
      → HasLength o.horizon_steps observed
      → fetch_guardrails zero_value backend o now queries observed ≡ answer result
      → HasLength o.horizon_steps result
  unfolding fetch_guardrails
  fetch_guardrails-HasLength [] observed result sized h =
      subst (HasLength o.horizon_steps) (answer-injective observed result h) sized
  fetch_guardrails-HasLength ((m, raw_query) ∷ queries) observed result sized h =
      let (values, l, h1) = fetch_guardrails-round m raw_query queries observed result h in
      fetch_guardrails-HasLength queries (insert m values observed) result
        (insert-HasLength o.horizon_steps m values observed l sized) h1

  fetch_guardrails-Holds :
      (k : String) (queries : Dict String String) (observed result : Dict String (List (Option F)))
      → Holds o.horizon_steps observed k
      → fetch_guardrails zero_value backend o now queries observed ≡ answer result
      → Holds o.horizon_steps result k
  unfolding fetch_guardrails
  fetch_guardrails-Holds k [] observed result held h =
      subst (λ d. Holds o.horizon_steps d k) (answer-injective observed result h) held
  fetch_guardrails-Holds k ((m, raw_query) ∷ queries) observed result held h =
      let (values, l, h1) = fetch_guardrails-round m raw_query queries observed result h in
      fetch_guardrails-Holds k queries (insert m values observed) result
        (insert-Holds o.horizon_steps m k values observed l held) h1

  fetch_guardrails-Covers :
      (queries : Dict String String) (observed result : Dict String (List (Option F)))
      → fetch_guardrails zero_value backend o now queries observed ≡ answer result
      → Covers o.horizon_steps (names_of (some queries)) result
  fetch_guardrails-Covers [] observed result h = tt
  fetch_guardrails-Covers ((m, raw_query) ∷ queries) observed result h =
      let (values, l, h1) = fetch_guardrails-round m raw_query queries observed result h in
      (
        fetch_guardrails-Holds m queries (insert m values observed) result
            (insert-Holds_own o.horizon_steps m values observed l) h1,
        fetch_guardrails-Covers queries (insert m values observed) result h1,
      )

  fetch_if_any-HasLength :
      (queries : Option (Dict String String)) (result : Dict String (List (Option F)))
      → fetch_if_any zero_value backend o now queries ≡ answer result
      → HasLength o.horizon_steps result × Covers o.horizon_steps (names_of queries) result
  fetch_if_any-HasLength none result h =
      (subst (HasLength o.horizon_steps) (answer-injective [] result h) tt, tt)
  fetch_if_any-HasLength (some queries) result h = (
    fetch_guardrails-HasLength queries [] result tt h,
    fetch_guardrails-Covers queries [] result h,
  )

  pub fetch_guardrail_history-HasLength :
      (result : Dict String (List (Option F)))
      → fetch_guardrail_history zero_value backend o now ≡ answer result
      → HasLength o.horizon_steps result × Covers o.horizon_steps (guardrail_names o) result
  unfolding fetch_guardrail_history
  fetch_guardrail_history-HasLength result h = fetch_if_any-HasLength o.guardrail_queries result h
