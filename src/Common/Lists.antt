-- ===== src/Common/Lists.antt =====
-- Lists measured and indexed by the native numbers, under the library's names, and sums.
use Prim.Native.Nat.{ℕ, zero, suc, ◌+◌, ◌-◌, ◌≤◌, ◌<◌, min}
use mathlib.Core.Bool.{Bool, true, false}
use mathlib.Core.Path.{◌≡◌, refl, ap}
use native.Mathlib.Nat.{zero-add, add-zero}
use predictive_autoscaling_k.Common.Tests.{if◌then◌else◌}
use mathlib.Core.List.{List, [], ◌∷◌, ◌++◌}
use mathlib.Core.Option.{Option, none, some}
use native.Mathlib.Omega.{arith}

module _ {ℓ} {A : Type ℓ} where
  abbrev pub length : List A → ℕ
  length [] = 0
  length (x ∷ xs) = suc (length xs)

  abbrev pub get_elem? : List A → ℕ → Option A
  get_elem? [] i = none
  get_elem? (x ∷ xs) zero = some x
  get_elem? (x ∷ xs) (suc i) = get_elem? xs i

  abbrev pub take : ℕ → List A → List A
  take zero xs = []
  take (suc n) [] = []
  take (suc n) (x ∷ xs) = x ∷ take n xs

  abbrev pub drop : ℕ → List A → List A
  drop zero xs = xs
  drop (suc n) [] = []
  drop (suc n) (x ∷ xs) = drop n xs

  abbrev pub replicate : ℕ → A → List A
  replicate zero a = []
  replicate (suc n) a = a ∷ replicate n a

  pub length-append : (xs ys : List A) → length (xs ++ ys) ≡ length xs + length ys
  length-append [] ys = omega arith
  length-append (x ∷ xs) ys = omega (arith, length-append xs ys)

  pub length-take : (n : ℕ) (xs : List A) → length (take n xs) ≡ min n (length xs)
  length-take zero xs = omega arith
  length-take (suc n) [] = omega arith
  length-take (suc n) (x ∷ xs) = omega (arith, length-take n xs)

  pub length-drop : (n : ℕ) (xs : List A) → length (drop n xs) ≡ length xs - n
  length-drop zero xs = omega arith
  length-drop (suc n) [] = omega arith
  length-drop (suc n) (x ∷ xs) = omega (arith, length-drop n xs)

  pub length-replicate : (n : ℕ) (a : A) → length (replicate n a) ≡ n
  length-replicate zero a = refl
  length-replicate (suc n) a = ap suc (length-replicate n a)

-- A predicate on every entry.
abbrev pub All {ℓ κ} : {A : Type ℓ} → (A → Type κ) → List A → Type κ
All P [] = Unit
All P (x ∷ xs) = P x × All P xs

pub All-append {ℓ κ} :
    {A : Type ℓ} (Holds : A → Type κ) (front back : List A)
    → All Holds front
    → All Holds back
    → All Holds (front ++ back)
All-append Holds [] back _ rest = rest
All-append Holds (a ∷ front) back (this, those) rest =
    (this, All-append Holds front back those rest)

-- start, start + 1, …: `n` numbers, as `range(start, start + n)`.
abbrev pub range_from : ℕ → ℕ → List ℕ
range_from start zero = []
range_from start (suc n) = start ∷ range_from (suc start) n

abbrev pub sum : List ℕ → ℕ
sum [] = 0
sum (x ∷ xs) = x + sum xs

abbrev pub sum_by {ℓ} : {A : Type ℓ} → (A → ℕ) → List A → ℕ
sum_by f [] = 0
sum_by f (x ∷ xs) = f x + sum_by f xs

pub sum_by-append {ℓ} :
    {A : Type ℓ} (f : A → ℕ) (xs ys : List A) → sum_by f (xs ++ ys) ≡ sum_by f xs + sum_by f ys
sum_by-append f [] ys = omega arith
sum_by-append f (x ∷ xs) ys = omega (arith, sum_by-append f xs ys)

-- Pairs up to the end of the shorter list.
abbrev pub zip {ℓ κ} : {A : Type ℓ} {B : Type κ} → List A → List B → List (A × B)
zip [] ys = []
zip (x ∷ xs) [] = []
zip (x ∷ xs) (y ∷ ys) = (x, y) ∷ zip xs ys

-- How many entries pass the test.
abbrev pub count_where {ℓ} : {A : Type ℓ} → (A → Bool) → List A → ℕ
count_where p [] = 0
count_where p (x ∷ xs) = if p x then suc (count_where p xs) else count_where p xs

pub count_where-append {ℓ} :
    {A : Type ℓ} (p : A → Bool) (xs ys : List A)
    → count_where p (xs ++ ys) ≡ count_where p xs + count_where p ys
count_where-append p [] ys = omega arith
count_where-append p (x ∷ xs) ys = ground (arith, count_where-append p xs ys)

pub range_from-append : (a n m : ℕ) → range_from a (n + m) ≡ range_from a n ++ range_from (a + n) m
range_from-append a zero m = rw (zero-add, add-zero)
range_from-append a (suc n) m =
    let e : suc n + m ≡ suc (n + m) = omega arith in
    let e' : a + suc n ≡ suc a + n = omega arith in
    rw (e, e') (ap (λ l. a ∷ l) (range_from-append (suc a) n m))

-- Tests that agree on a range count the same there.
pub count_where-range_from :
    (p q : ℕ → Bool) (a n : ℕ)
    → ((i : ℕ) → a ≤ i → i < a + n → p i ≡ q i)
    → count_where p (range_from a n) ≡ count_where q (range_from a n)
count_where-range_from p q a zero h = refl
count_where-range_from p q a (suc n) h = ground (
  arith,
  h a (omega arith) (omega arith),
  count_where-range_from p q (suc a) n (λ i l u. h i (omega arith) (omega arith)),
)

pub count_where_all {ℓ} : {A : Type ℓ} (xs : List A) → count_where (λ _. true) xs ≡ length xs
count_where_all [] = refl
count_where_all (x ∷ xs) = ap suc (count_where_all xs)

pub count_where_none {ℓ} : {A : Type ℓ} (xs : List A) → count_where (λ _. false) xs ≡ 0
count_where_none [] = refl
count_where_none (x ∷ xs) = count_where_none xs

pub length-range_from : (a n : ℕ) → length (range_from a n) ≡ n
length-range_from a zero = refl
length-range_from a (suc n) = ap suc (length-range_from (suc a) n)
