-- ===== src/RangeStore/Bisect.antt =====
-- `bisect.bisect_right` of the standard library, as the store uses it.
use predictive_autoscaling_k.Common.{
  List, false, get_elem?, length, ltb, nat_Eq, none, some, suc, true, zero, ℕ, ◌+◌, ◌/◌,
}

-- The loop of the binary search, on fuel: it halves `hi - lo`.
unfoldable pub bisect_loop : ℕ → List ℕ → ℕ → ℕ → ℕ → ℕ
bisect_loop zero a x lo hi = lo
bisect_loop (suc fuel) a x lo hi =
    let mid = (lo + hi) / 2 in
    elim (ltb lo hi) [
      | false ↦ lo
      | true ↦ elim (get_elem? a mid) [
        | none ↦ lo
        | some v ↦ elim (ltb x v) [
          | true ↦ bisect_loop fuel a x lo mid
          | false ↦ bisect_loop fuel a x (suc mid) hi
        ]
      ]
    ]

unfoldable pub bisect_right : List ℕ → ℕ → ℕ
unfolding bisect_loop
bisect_right a x = bisect_loop (suc (length a)) a x 0 (length a)
