-- ===== src/Forecast/History.antt =====
-- The rows that are built of a history: newest first for the linear regression, oldest first for the
-- response.
use mathlib.Core.Path.{fun_ext, subst}
use native.Mathlib.Nat.{mul-add, mul_comm}
use predictive_autoscaling_k.Common.{
  List, Option, String, [], ap, arith, false, get_elem?, length, ltb, nat_eq, refl, some, string_Eq,
  suc, sym, true, zero, ℕ, ◌*◌, ◌+◌, ◌-◌, ◌<◌, ◌∙◌, ◌∷◌, ◌≡◌, ◌≤◌,
}
use predictive_autoscaling_k.Common.Dict.{Dict}
use predictive_autoscaling_k.Forecast.{Answer, MetricForecastRow, answer, index_out_of_range, ◌>>=◌}
use predictive_autoscaling_k.Forecast.Rows.{
  Series, build_linear_regression_history_rows, build_response_history_rows, found_or, row_at,
  rows_back_from, rows_on_from, series_length, series_of, series_value_for_offset,
}

shifted_index : (a : ℕ) → ◌≡◌ {A = ℕ → ℕ} (λ k. suc a + k) (λ k. a + suc k)
shifted_index a = fun_ext (λ k. omega arith)

from_zero : ◌≡◌ {A = ℕ → ℕ} (λ k. 0 + k) (λ k. k)
from_zero = fun_ext (λ k. omega arith)

-- The k-th row from the end.
last_time :
    (generated_at step_seconds n k : ℕ)
    → k < n
    → step_seconds * (n - 1) ≤ generated_at
    → generated_at - step_seconds * (n - 1) + (n - 1 - k) * step_seconds
      ≡ generated_at - k * step_seconds
last_time generated_at step_seconds n k l h =
    let j = n - 1 - k in
    let e : n - 1 ≡ k + j = omega arith in
    let split = ap (λ m. step_seconds * m) e ∙ mul-add step_seconds k j in
    let left = mul_comm step_seconds k in
    let right = mul_comm step_seconds j in omega (arith, split, left, right)

module _ {F : Type 0} where
  -- The three series have `n` values each.
  pub record HasPoints (n : ℕ) (s : Series F) : Type 0 where
    pub requests_length : length s.requests ≡ n
    pub cpu_length : length s.cpu_seconds ≡ n
    pub bandwidth_length : length s.bandwidth_bytes ≡ n

  -- The row of a time has the values at an index of the three series.
  pub record IsRow (s : Series F) (time i : ℕ) (row : MetricForecastRow F) : Type 0 where
    pub at_time : row.datetime ≡ time
    pub requests_value : get_elem? s.requests i ≡ some row.total_requests_per_minute
    pub cpu_value : get_elem? s.cpu_seconds i ≡ some row.total_cpu_seconds_per_minute
    pub bandwidth_value : get_elem? s.bandwidth_bytes i ≡ some row.total_bandwidth_bytes_per_minute

  get_elem?-total : (xs : List F) (i : ℕ) → i < length xs → (x : F) × (get_elem? xs i ≡ some x)
  get_elem?-total [] i h = absurd (omega arith)
  get_elem?-total (x ∷ xs) zero h = (x, refl)
  get_elem?-total (x ∷ xs) (suc i) h = get_elem?-total xs i (omega arith)

  found_row :
      (time : ℕ) (x y z : Option F) (a b c : F)
      → x ≡ some a
      → y ≡ some b
      → z ≡ some c
      → row_at time
          (found_or index_out_of_range x)
          (found_or index_out_of_range y)
          (found_or index_out_of_range z)
        ≡ answer (record {
          datetime = time;
          total_requests_per_minute = a;
          total_cpu_seconds_per_minute = b;
          total_bandwidth_bytes_per_minute = c;
        })
  found_row time x y z a b c ea eb ec = rw (ea, eb, ec) refl

  -- A row of three values that are there.
  row_at-IsRow :
      (s : Series F) (n time i : ℕ)
      → HasPoints n s
      → i < n
      → (row : MetricForecastRow F) × IsRow s time i row
        × (row_at time
              (found_or index_out_of_range (get_elem? s.requests i))
              (found_or index_out_of_range (get_elem? s.cpu_seconds i))
              (found_or index_out_of_range (get_elem? s.bandwidth_bytes i))
            ≡ answer row)
  row_at-IsRow s n time i h l =
      let (a, ea) = get_elem?-total s.requests i (omega (arith, h.requests_length)) in
      let (b, eb) = get_elem?-total s.cpu_seconds i (omega (arith, h.cpu_length)) in
      let (c, ec) = get_elem?-total s.bandwidth_bytes i (omega (arith, h.bandwidth_length)) in
      let row : MetricForecastRow F = record {
        datetime = time;
        total_requests_per_minute = a;
        total_cpu_seconds_per_minute = b;
        total_bandwidth_bytes_per_minute = c;
      } in
      (
        row,
        record { at_time = refl; requests_value = ea; cpu_value = eb; bandwidth_value = ec },
        found_row time _ _ _ a b c ea eb ec,
      )

  series_value_for_offset_lem :
      (series : List F) (n offset : ℕ)
      → length series ≡ n
      → offset < n
      → series_value_for_offset series offset
        ≡ found_or index_out_of_range (get_elem? series (n - 1 - offset))
  unfolding series_value_for_offset
  series_value_for_offset_lem series n offset e l =
      let inside : ltb offset n ≡ true = ground arith in
      rw (e, inside, series_value_for_offset) refl

  -- The rows are there, and the k-th is the row of a time and an index.
  abbrev pub AreRows :
      Series F → (ℕ → ℕ) → (ℕ → ℕ) → ℕ → Answer (List (MetricForecastRow F)) → Type 0
  AreRows s time_of index_of n result =
      (rows : List (MetricForecastRow F)) × (result ≡ answer rows)
      × (length rows ≡ n)
      × ((k : ℕ)
          → k < n
          → (row : MetricForecastRow F) × (get_elem? rows k ≡ some row)
            × IsRow s (time_of k) (index_of k) row)

  cons-AreRows :
      (s : Series F) (time_of index_of : ℕ → ℕ) (n : ℕ) (row : MetricForecastRow F)
      (first : Answer (MetricForecastRow F)) (rest : Answer (List (MetricForecastRow F)))
      → first ≡ answer row
      → IsRow s (time_of 0) (index_of 0) row
      → AreRows s (λ k. time_of (suc k)) (λ k. index_of (suc k)) n rest
      → AreRows s time_of index_of (suc n) (first >>= λ r. rest >>= λ rs. answer (r ∷ rs))
  cons-AreRows s time_of index_of n row first rest e is_row (rows, er, l, each) =
      (row ∷ rows, rw (e, er) refl, ap suc l, of_index)
    where
      of_index :
          (k : ℕ)
          → k < suc n
          → (found : MetricForecastRow F) × (get_elem? (row ∷ rows) k ≡ some found)
            × IsRow s (time_of k) (index_of k) found
      of_index zero h = (row, refl, is_row)
      of_index (suc k) h = each k (omega arith)

  rows_back_from-AreRows :
      (s : Series F) (n generated_at step_seconds rounds offset : ℕ)
      → HasPoints n s
      → offset + rounds ≤ n
      → AreRows s
          (λ k. generated_at - (offset + k) * step_seconds)
          (λ k. n - 1 - (offset + k))
          rounds
          (rows_back_from s generated_at step_seconds rounds offset)
  unfolding rows_back_from
  rows_back_from-AreRows s n generated_at step_seconds zero offset h l =
      ([], refl, refl, λ k below. absurd (omega arith))
  rows_back_from-AreRows s n generated_at step_seconds (suc rounds) offset h l =
      let time = generated_at - offset * step_seconds in
      let (row, is_row, found) = row_at-IsRow s n time (n - 1 - offset) h (omega arith) in
      let below : offset < n = omega arith in
      let here_now : offset + 0 ≡ offset = omega arith in
      let shift = shifted_index offset in
      let same_values : row_at time (series_value_for_offset s.requests offset)
            (series_value_for_offset s.cpu_seconds offset)
            (series_value_for_offset s.bandwidth_bytes offset)
          ≡ answer row =
        rw
          (
            series_value_for_offset_lem s.requests n offset h.requests_length below,
            series_value_for_offset_lem s.cpu_seconds n offset h.cpu_length below,
            series_value_for_offset_lem s.bandwidth_bytes n offset h.bandwidth_length below,
          )
          found in
      cons-AreRows s (λ k. generated_at - (offset + k) * step_seconds) (λ k. n - 1 - (offset + k))
        rounds row
        (row_at time (series_value_for_offset s.requests offset)
          (series_value_for_offset s.cpu_seconds offset)
          (series_value_for_offset s.bandwidth_bytes offset))
        _ same_values (rw here_now is_row)
        (subst
          (λ f.
            AreRows s (λ k. generated_at - f k * step_seconds) (λ k. n - 1 - f k) rounds
              (rows_back_from s generated_at step_seconds rounds (suc offset)))
          shift
          (rows_back_from-AreRows s n generated_at step_seconds rounds (suc offset) h
            (omega arith)))

  rows_on_from-AreRows :
      (s : Series F) (n start_at step_seconds rounds index : ℕ)
      → HasPoints n s
      → index + rounds ≤ n
      → AreRows s
          (λ k. start_at + (index + k) * step_seconds)
          (λ k. index + k)
          rounds
          (rows_on_from s start_at step_seconds rounds index)
  unfolding rows_on_from
  rows_on_from-AreRows s n start_at step_seconds zero index h l =
      ([], refl, refl, λ k below. absurd (omega arith))
  rows_on_from-AreRows s n start_at step_seconds (suc rounds) index h l =
      let (row, is_row, found) =
        row_at-IsRow s n (start_at + index * step_seconds) index h (omega arith) in
      let here_now : index + 0 ≡ index = omega arith in
      let shift = shifted_index index in
      cons-AreRows s (λ k. start_at + (index + k) * step_seconds) (λ k. index + k) rounds row _ _
        found (rw here_now is_row)
        (subst
          (λ f.
            AreRows s (λ k. start_at + f k * step_seconds) f rounds
              (rows_on_from s start_at step_seconds rounds (suc index)))
          shift (rows_on_from-AreRows s n start_at step_seconds rounds (suc index) h (omega arith)))

  -- When the history has all three metrics with n values each, and no more than n rows are asked for, the
  -- linear regression is given just so many: the k-th is k steps before now, with the k-th last values.
  pub build_linear_regression_history_rows-AreRows :
      (history : Dict String (List F)) (s : Series F) (n generated_at step_seconds rows : ℕ)
      → series_of history ≡ some s
      → HasPoints n s
      → rows ≤ n
      → AreRows s
          (λ k. generated_at - k * step_seconds)
          (λ k. n - 1 - k)
          rows
          (build_linear_regression_history_rows history generated_at step_seconds rows)
  unfolding build_linear_regression_history_rows
  build_linear_regression_history_rows-AreRows history s n generated_at step_seconds rows e h l =
      rw (e, build_linear_regression_history_rows)
        (subst
          (λ f.
            AreRows s (λ k. generated_at - f k * step_seconds) (λ k. n - 1 - f k) rows
              (rows_back_from s generated_at step_seconds rows 0))
          from_zero (rows_back_from-AreRows s n generated_at step_seconds rows 0 h (omega arith)))

  series_length_lem : (n : ℕ) (s : Series F) → HasPoints n s → series_length s ≡ n
  series_length_lem n s h = omega (arith, h.requests_length, h.cpu_length, h.bandwidth_length)

  pub build_response_history_rows-AreRows :
      (history : Dict String (List F)) (s : Series F) (n generated_at step_seconds : ℕ)
      → series_of history ≡ some s
      → HasPoints n s
      → 0 < n
      → AreRows s
          (λ k. generated_at - step_seconds * (n - 1) + k * step_seconds)
          (λ k. k)
          n
          (build_response_history_rows history generated_at step_seconds)
  unfolding build_response_history_rows
  build_response_history_rows-AreRows history s n generated_at step_seconds e h l =
      let start_at = generated_at - step_seconds * (n - 1) in
      let some_point : nat_eq n 0 ≡ false = ground arith in
      rw (e, series_length_lem n s h, some_point, build_response_history_rows)
        (subst
          (λ f.
            AreRows s (λ k. start_at + f k * step_seconds) f n
              (rows_on_from s start_at step_seconds n 0))
          from_zero (rows_on_from-AreRows s n start_at step_seconds n 0 h (omega arith)))

  IsRow-unique :
      (s : Series F) (time i : ℕ) (p q : MetricForecastRow F)
      → IsRow s time i p
      → IsRow s time i q
      → p ≡ q
  IsRow-unique s time i p q hp hq = ground arith

  -- When the history has all three metrics with n values each, n is positive and the n - 1 steps before
  -- now do not go back past the epoch, the rows of the response are those that the linear regression is
  -- given for n steps, in reverse: both are there, and the k-th of the one is the k-th last of the other.
  pub history_rows-reversed :
      (history : Dict String (List F)) (s : Series F) (n generated_at step_seconds : ℕ)
      → series_of history ≡ some s
      → HasPoints n s
      → 0 < n
      → step_seconds * (n - 1) ≤ generated_at
      → (newest_first oldest_first : List (MetricForecastRow F))
        × (build_linear_regression_history_rows history generated_at step_seconds n
            ≡ answer newest_first)
        × (build_response_history_rows history generated_at step_seconds ≡ answer oldest_first)
        × (length newest_first ≡ n)
        × (length oldest_first ≡ n)
        × ((k : ℕ) → k < n → get_elem? oldest_first (n - 1 - k) ≡ get_elem? newest_first k)
  history_rows-reversed history s n generated_at step_seconds e h l past =
      let (back, eb, lb, each_back) =
        build_linear_regression_history_rows-AreRows history s n generated_at step_seconds n e h
          (omega arith) in
      let (on, eo, lo, each_on) =
        build_response_history_rows-AreRows history s n generated_at step_seconds e h l in
      (
        back,
        on,
        eb,
        eo,
        lb,
        lo,
        λ k below.
            let (p, ep, hp) = each_back k below in
            let (q, eq, hq) = each_on (n - 1 - k) (omega arith) in
            let time = last_time generated_at step_seconds n k below past in
            eq
            ∙ ap some (
                IsRow-unique s (generated_at - k * step_seconds) (n - 1 - k) q p
                  (subst (λ t. IsRow s t (n - 1 - k) q) time hq) hp)
            ∙ sym ep,
      )
