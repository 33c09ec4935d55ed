-- ===== src/Forecast/Predictions.antt =====
-- The sizes of the lists that `query_range` and the extraction of predictions return.
use predictive_autoscaling_k.Common.{
  Bool, Bool-cases, List, Option, String, [], ap, arith, inl, inr, length, length-replicate,
  length-take, ltb, none, refl, some, string_Eq, suc, take, zero, ℕ, ◌∷◌, ◌≡◌, ◌≢◌,
}
use predictive_autoscaling_k.Common.Dict.{Dict, lookup}
use predictive_autoscaling_k.Forecast.{
  Answer, ForecastError, MetricForecastRow, answer, failed, unsupported_target, ◌>>=◌,
}
use predictive_autoscaling_k.Forecast.Prometheus.{
  RangeResponse, Reading, collect, fill_value, points_from, points_of, query_range,
}
use predictive_autoscaling_k.Forecast.Rows.{
  JsonField, extract_from, extract_metric_predictions, extract_predictions, first_predictions,
  floats, found_or, is_contract_metric, items, metrics_of, null, other, row_metric,
}
use predictive_autoscaling_k.Forecast.Service.{present}
use predictive_autoscaling_k.Sender.Dispatch.Launching.{taken}

-- A chain that has an answer: its first step has one, and the rest of it.
pub >>=-answer {ℓ κ} :
    {A : Type ℓ} {B : Type κ} (given : Answer A) (then_do : A → Answer B) {b : B}
    → (given >>= then_do) ≡ answer b
    → (a : A) × (given ≡ answer a) × (then_do a ≡ answer b)
>>=-answer (answer a) then_do h = (a, refl, h)
>>=-answer (failed error) then_do h = cc

pub answer-injective {ℓ} : {A : Type ℓ} (a b : A) → answer a ≡ answer b → a ≡ b
answer-injective a b h = cc

pub failed-ne-answer {ℓ} : {A : Type ℓ} (error : ForecastError) (a : A) → failed error ≢ answer a
failed-ne-answer error a h = cc

module _ {F : Type 0} where
  length-floats :
      (vs : List (Option F)) (predictions : List F)
      → floats vs ≡ answer predictions
      → length predictions ≡ length vs
  unfolding floats
  length-floats [] ps h = let e : ps ≡ [] = cc in rw e refl
  length-floats (none ∷ vs) ps h = cc
  length-floats (some v ∷ vs) ps h =
      let (rest, e, last) = >>=-answer (floats vs) _ h in
      let same = answer-injective (v ∷ rest) ps last in
      rw (← same) (ap suc (length-floats vs rest e))

  first_predictions-length :
      (vs ps : List F) (n : ℕ) → first_predictions vs n ≡ answer ps → length ps ≡ n
  unfolding first_predictions
  first_predictions-length vs ps n h = elim (Bool-cases (ltb (length vs) n)) [
    | inl short ↦ absurd (failed-ne-answer _ ps (rw short at h))
    | inr enough ↦
        let same = answer-injective (take n vs) ps (rw enough at h) in
        rw (← same) (ground (arith, length-take n vs))
  ]

  length-metrics_of :
      (metric_name : String) (rows : List (MetricForecastRow F)) (ps : List F)
      → metrics_of metric_name rows ≡ answer ps
      → length ps ≡ length rows
  unfolding metrics_of
  length-metrics_of metric_name [] ps h = let e : ps ≡ [] = cc in rw e refl
  length-metrics_of metric_name (row ∷ rows) ps h =
      let (v, e, h1) = >>=-answer (found_or unsupported_target (row_metric metric_name row)) _ h in
      let (vs, e1, h2) = >>=-answer (metrics_of metric_name rows) _ h1 in
      let same = answer-injective (v ∷ vs) ps h2 in
      rw (← same) (ap suc (length-metrics_of metric_name rows vs e1))

  pub extract_metric_predictions-length :
      (rows : List (MetricForecastRow F)) (metric_name : String) (n : ℕ) (ps : List F)
      → extract_metric_predictions rows metric_name n ≡ answer ps
      → length ps ≡ n
  unfolding extract_metric_predictions
  extract_metric_predictions-length rows metric_name n ps h =
      elim (Bool-cases (is_contract_metric metric_name)) [
        | inr unknown ↦ absurd (failed-ne-answer _ ps (rw unknown at h))
        | inl known ↦ elim (Bool-cases (ltb (length rows) n)) [
          | inl short ↦ absurd (failed-ne-answer _ ps (rw (known, short) at h))
          | inr enough ↦
              let l = length-metrics_of metric_name (take n rows) ps (rw (known, enough) at h) in
              ground (arith, l, length-take n rows)
        ]
      ]

  extract_from-length :
      (keys : List String) (payload : Dict String (JsonField F)) (n : ℕ) (ps : List F)
      → extract_from keys payload n ≡ answer ps
      → length ps ≡ n
  unfolding extract_from
  extract_from-length [] payload n ps h = cc
  extract_from-length (key ∷ keys) payload n ps h =
      of_field (extract_from-length keys payload n ps) (lookup key payload) refl
    where
      of_field :
          (extract_from keys payload n ≡ answer ps → length ps ≡ n)
          → (o : Option (JsonField F)) → lookup key payload ≡ o
          → length ps ≡ n
      of_field later none e = later (rw (e, extract_from) at h)
      of_field later (some null) e = later (rw (e, extract_from) at h)
      of_field later (some other) e = absurd (failed-ne-answer _ ps (rw (e, extract_from) at h))
      of_field later (some (items value)) e =
          let (vs, _, taken) = >>=-answer (floats value) _ (rw (e, extract_from) at h) in
          first_predictions-length vs ps n taken

  pub length-present :
      (vs : List (Option F)) (xs : List F) → present vs ≡ answer xs → length xs ≡ length vs
  unfolding present
  length-present [] xs h = let e : xs ≡ [] = cc in rw e refl
  length-present (none ∷ vs) xs h = cc
  length-present (some v ∷ vs) xs h =
      let (rest, e, last) = >>=-answer (present vs) _ h in
      let same = answer-injective (v ∷ rest) xs last in
      rw (← same) (ap suc (length-present vs rest e))

  pub length-points_from :
      (zero_value : F) (nullable : Bool) (d : Dict ℕ (Option F)) (start step rounds index : ℕ)
      → length (points_from zero_value nullable d start step rounds index) ≡ rounds
  unfolding points_from
  length-points_from zero_value nullable d start step zero index = refl
  length-points_from zero_value nullable d start step (suc rounds) index =
      ap suc (length-points_from zero_value nullable d start step rounds (suc index))

  pub length-query_range :
      (zero_value : F) (nullable : Bool) (start step expected : ℕ)
      (response : Answer (RangeResponse F)) (points : List (Option F))
      → query_range zero_value nullable start step expected response ≡ answer points
      → length points ≡ expected
  unfolding query_range
  length-query_range zero_value nullable start step expected response points h =
      let (payload, _, h1) = >>=-answer response _ h in
      elim (Bool-cases payload.success) [
        | inr refused ↦ absurd (failed-ne-answer _ points (simp refused at h1))
        | inl good ↦ of_result payload.result (simp good at h1)
      ]
    where
      of_result :
          (result : List (List (ℕ × Reading F)))
          → points_of zero_value nullable start step expected result ≡ answer points
          → length points ≡ expected
      of_result [] e =
          let same = answer-injective _ points e in
          rw (← same) (length-replicate expected (fill_value zero_value nullable))
      of_result (values ∷ more) e =
          let (d, _, e1) = >>=-answer (collect zero_value nullable values []) _ e in
          let same = answer-injective _ points e1 in
          rw (← same) (length-points_from zero_value nullable d start step expected 0)

  pub extract_predictions-length :
      (payload : Dict String (JsonField F)) (n : ℕ) (ps : List F)
      → extract_predictions payload n ≡ answer ps
      → length ps ≡ n
  unfolding extract_predictions
  extract_predictions-length payload n ps h =
      extract_from-length ("predictions" ∷ "forecast" ∷ "values" ∷ "prediction" ∷ []) payload n ps h
