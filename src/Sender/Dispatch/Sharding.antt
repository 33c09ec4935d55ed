-- ===== src/Sender/Dispatch/Sharding.antt =====
-- `_should_handle_request` in several worker processes that share the script.
use mathlib.Core.Path.{fun_ext}
use predictive_autoscaling_k.Common.{
  Bool, List, [], ap, ap₂, arith, count_where, if◌then◌else◌, length, length-range_from, nat_eq,
  range_from, refl, some, suc, sum_by, zero, ℕ, ℕ_discrete, ◌%◌, ◌+◌, ◌<◌, ◌∙◌, ◌∷◌, ◌≡◌, ◌≤◌,
}
use predictive_autoscaling_k.Sender.{SenderConfig}
use predictive_autoscaling_k.Sender.Dispatch.{assigned_request_count, should_handle_request}

count-nat_eq_none : (k a n : ℕ) → k < a → count_where (λ w. nat_eq k w) (range_from a n) ≡ 0
count-nat_eq_none k a zero h = refl
count-nat_eq_none k a (suc n) h = ground (arith, count-nat_eq_none k (suc a) n (omega arith))

count-nat_eq : (k a n : ℕ) → a ≤ k → k < a + n → count_where (λ w. nat_eq k w) (range_from a n) ≡ 1
count-nat_eq k a zero l h = absurd (omega arith)
count-nat_eq k a (suc n) l h = elim (ℕ_discrete k a) [
  | yes e ↦ ground (arith, count-nat_eq_none k (suc a) n (omega arith))
  | no e ↦ ground (arith, count-nat_eq k (suc a) n (omega arith) (omega arith))
]

-- The configuration of the worker with this index.
abbrev pub worker : SenderConfig → ℕ → SenderConfig
worker c w = record c { worker_index = some w }

-- With at least one worker, each request of the script is taken by exactly one of them.
pub should_handle_request_once :
    (c : SenderConfig) (i : ℕ)
    → 0 < c.worker_count
    → count_where (λ w. should_handle_request (worker c w) i) (range_from 0 c.worker_count) ≡ 1
unfolding should_handle_request
should_handle_request_once c i h =
    count-nat_eq (i % c.worker_count) 0 c.worker_count (omega arith) (grind arith)

sum_by-add {ℓ} :
    {A : Type ℓ} (f g : A → ℕ) (xs : List A)
    → sum_by (λ x. f x + g x) xs ≡ sum_by f xs + sum_by g xs
sum_by-add f g [] = refl
sum_by-add f g (x ∷ xs) = omega (arith, sum_by-add f g xs)

sum_by-zero {ℓ} : {A : Type ℓ} (xs : List A) → sum_by (λ _. 0) xs ≡ 0
sum_by-zero [] = refl
sum_by-zero (x ∷ xs) = omega (arith, sum_by-zero xs)

abbrev one_if : Bool → ℕ
one_if b = if b then 1 else 0

count_where-cons {ℓ} :
    {A : Type ℓ} (p : A → Bool) (x : A) (xs : List A)
    → count_where p (x ∷ xs) ≡ one_if (p x) + count_where p xs
count_where-cons p x xs = ground arith

count_where-sum_by {ℓ} :
    {A : Type ℓ} (p : A → Bool) (xs : List A) → sum_by (λ x. one_if (p x)) xs ≡ count_where p xs
count_where-sum_by p [] = refl
count_where-sum_by p (x ∷ xs) = ground (arith, count_where-sum_by p xs)

-- Counting by rows is counting by columns.
sum-count_where_swap :
    (p : ℕ → ℕ → Bool) (ws is : List ℕ)
    → sum_by (λ w. count_where (p w) is) ws ≡ sum_by (λ i. count_where (λ w. p w i) ws) is
sum-count_where_swap p ws [] = sum_by-zero ws
sum-count_where_swap p ws (i ∷ is) =
    ap (λ f. sum_by f ws) (fun_ext (λ w. count_where-cons (p w) i is))
    ∙ sum_by-add (λ w. one_if (p w i)) (λ w. count_where (p w) is) ws
    ∙ ap₂ ◌+◌ (count_where-sum_by (λ w. p w i) ws) (sum-count_where_swap p ws is)

sum_by-ones : (f : ℕ → ℕ) (xs : List ℕ) → ((x : ℕ) → f x ≡ 1) → sum_by f xs ≡ length xs
sum_by-ones f [] h = refl
sum_by-ones f (x ∷ xs) h = omega (arith, h x, sum_by-ones f xs h)

-- With at least one worker, the requests of a second that the workers plan add up to all its requests.
pub assigned_request_count_total :
    (c : SenderConfig) (base n : ℕ)
    → 0 < c.worker_count
    → sum_by (λ w. assigned_request_count (worker c w) base n) (range_from 0 c.worker_count) ≡ n
unfolding assigned_request_count
assigned_request_count_total c base n h =
    sum-count_where_swap (λ w i. should_handle_request (worker c w) (base + i))
      (range_from 0 c.worker_count) (range_from 0 n)
    ∙ sum_by-ones _ (range_from 0 n) (λ i. should_handle_request_once c (base + i) h)
    ∙ length-range_from 0 n
