-- ===== src/RangeStore/Window.antt =====
-- The readings of a window of the script, second by second, out of the whole file: what the loop of
-- `_slice_filled_series` has to find.
use predictive_autoscaling_k.Common.{
  All, Bool-cases, List, [], arith, if◌then◌else◌, inl, inr, leb, ltb, nat_Eq, nat_eq, none, refl,
  some, suc, ℕ, ◌&&◌, ◌*◌, ◌++◌, ◌+◌, ◌-◌, ◌/◌, ◌<◌, ◌∷◌, ◌≡◌, ◌≤◌,
}
use predictive_autoscaling_k.Common.Dict.{Dict, insert, lookup-insert}
use predictive_autoscaling_k.Common.Int.{pos, ℤ}
use predictive_autoscaling_k.RangeStore.{Line, collect, requests_at}

-- The last reading of the lines that lies in the span, and `otherwise` without one.
abbrev pub last_in : ℕ → ℕ → List Line → ℤ → ℤ
last_in from to [] otherwise = otherwise
last_in from to ((size, none) ∷ lines) otherwise = last_in from to lines otherwise
last_in from to ((size, some (t, n)) ∷ lines) otherwise =
    last_in from to lines (if leb from t && ltb t to then n else otherwise)

-- The requests of a second of the window.
abbrev pub requests_in : List Line → ℕ → ℕ → ℤ
requests_in lines start k =
    last_in (start + k * 1000000) (start + k * 1000000 + 1000000) lines (pos 0)

abbrev pub IsLater : ℕ → Line → Type 0
IsLater t (size, none) = Unit {0}
IsLater t (size, some (u, n)) = t < u

abbrev pub IsEarlier : ℕ → Line → Type 0
IsEarlier t (size, none) = Unit {0}
IsEarlier t (size, some (u, n)) = u < t

-- Each reading is later than those before it.
abbrev pub IsAscending : List Line → Type 0
IsAscending [] = Unit
IsAscending ((size, none) ∷ lines) = IsAscending lines
IsAscending ((size, some (t, n)) ∷ lines) = All (IsLater t) lines × IsAscending lines

-- Lines after the span or before it do not count.
last_in_later :
    (from to t : ℕ) (lines : List Line) (otherwise : ℤ)
    → to ≤ suc t
    → All (IsLater t) lines
    → last_in from to lines otherwise ≡ otherwise
last_in_later from to t [] otherwise h all = refl
last_in_later from to t ((size, none) ∷ lines) otherwise h (_, all) =
    last_in_later from to t lines otherwise h all
last_in_later from to t ((size, some (u, n)) ∷ lines) otherwise h (later, all) =
    ground (arith, h, later, last_in_later from to t lines otherwise h all)

pub last_in_earlier :
    (from to t : ℕ) (front back : List Line) (otherwise : ℤ)
    → t ≤ from
    → All (IsEarlier t) front
    → last_in from to (front ++ back) otherwise ≡ last_in from to back otherwise
last_in_earlier from to t [] back otherwise h all = refl
last_in_earlier from to t ((size, none) ∷ front) back otherwise h (_, all) =
    last_in_earlier from to t front back otherwise h all
last_in_earlier from to t ((size, some (u, n)) ∷ front) back otherwise h (earlier, all) =
    ground (arith, h, earlier, last_in_earlier from to t front back otherwise h all)

second_of :
    (start t k : ℕ)
    → start ≤ t
    → nat_eq ((t - start) / 1000000) k
      ≡ (leb (start + k * 1000000) t && ltb t (start + k * 1000000 + 1000000))
second_of start t k h = ground (arith, h)

requests_at-insert :
    (start t k : ℕ) (n : ℤ) (points : Dict ℕ ℤ)
    → start ≤ t
    → requests_at (insert ((t - start) / 1000000) n points) k ≡ (
        if leb (start + k * 1000000) t && ltb t (start + k * 1000000 + 1000000)
        then n
        else requests_at points k)
requests_at-insert start t k n points h =
    ground (arith, lookup-insert ((t - start) / 1000000) k n points, second_of start t k h)

-- What the loop collects for a second is what the second holds in the lines that it reads.
pub requests_at-collect :
    (start duration k : ℕ) (lines : List Line) (points : Dict ℕ ℤ)
    → k < duration
    → IsAscending lines
    → requests_at (collect start (start + duration * 1000000) lines points) k
      ≡ last_in (start + k * 1000000) (start + k * 1000000 + 1000000) lines (requests_at points k)
unfolding collect
requests_at-collect start duration k [] points h ascending = refl
requests_at-collect start duration k ((size, none) ∷ lines) points h ascending =
    requests_at-collect start duration k lines points h ascending
requests_at-collect start duration k ((size, some (t, n)) ∷ lines) points h (later, ascending) =
    let from = start + k * 1000000 in
    elim (Bool-cases (ltb t start)) [
      | inl before ↦
          ground (arith, before, requests_at-collect start duration k lines points h ascending)
      | inr reached ↦ elim (Bool-cases (leb (start + duration * 1000000) t)) [
        | inl over ↦ ground (
          arith,
          h,
          reached,
          over,
          last_in_later from (from + 1000000) t lines (requests_at points k)
              (ground (arith, h, over)) later,
        )
        | inr within ↦ ground (
          arith,
          reached,
          within,
          requests_at-insert start t k n points (ground (arith, reached)),
          requests_at-collect start duration k lines (insert ((t - start) / 1000000) n points) h
              ascending,
        )
      ]
    ]
