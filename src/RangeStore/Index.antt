-- ===== src/RangeStore/Index.antt =====
-- The index that `_ensure_index` builds, and the offset that `_starting_offset` takes from it.
use mathlib.Core.Path.{subst}
use predictive_autoscaling_k.Common.{
  All, All-append, Bool-cases, List, Option-cases, [], ap, append_assoc, arith, get_elem?, inl, inr,
  length, ltb, map, nat_Eq, none, refl, some, suc, sum_by, sum_by-append, sym, zero, ℕ, ◌%◌, ◌++◌,
  ◌+◌, ◌/◌, ◌<◌, ◌==◌, ◌∙◌, ◌∷◌, ◌≡◌, ◌≤◌,
}
use predictive_autoscaling_k.Common.Int.{ℤ}
use predictive_autoscaling_k.RangeStore.{
  CsvFile, Line, ScriptRangeStore, ensure_index, index_line, index_lines, new_store, offset_at,
  starting_offset,
}
use predictive_autoscaling_k.RangeStore.Bisect.{bisect_loop, bisect_right}
use predictive_autoscaling_k.RangeStore.Window.{IsAscending, IsEarlier, IsLater}

abbrev pub total : List Line → ℕ
total = sum_by (λ line. line.0)

-- An entry of the index: the time of a line, and the offset at which the line begins.
abbrev pub IsEntry : CsvFile → ℕ × ℕ → Type 0
IsEntry file (t, offset) =
    (front : List Line) × (size : ℕ) × (n : ℤ) × (back : List Line) × (file.lines
      ≡ front ++ ((size, some (t, n)) ∷ back))
    × (offset ≡ file.header_size + total front)

index_line-IsEntry :
    (file : CsvFile) (store : ScriptRangeStore) (row : ℕ) (front back : List Line) (line : Line)
    → file.lines ≡ front ++ (line ∷ back)
    → All (IsEntry file) store.index
    → All (IsEntry file) (index_line store (file.header_size + total front) row line.1).index
unfolding index_line
index_line-IsEntry file store row front back (size, none) same all = all
index_line-IsEntry file store row front back (size, some (t, n)) same all =
    elim (Bool-cases (row % store.index_stride == 0)) [
      | inl due ↦ rw due (
          All-append (IsEntry file) store.index ((t, file.header_size + total front) ∷ []) all
            ((front, size, n, back, same, refl), tt))
      | inr skipped ↦ rw skipped all
    ]

index_lines-IsEntry :
    (file : CsvFile) (store : ScriptRangeStore) (row : ℕ) (front back : List Line)
    → file.lines ≡ front ++ back
    → All (IsEntry file) store.index
    → All (IsEntry file) (index_lines store (file.header_size + total front) row back).index
unfolding index_lines
index_lines-IsEntry file store row front [] same all = all
index_lines-IsEntry file store row front (line ∷ back) same all =
    let next = index_line store (file.header_size + total front) row line.1 in
    let split : front ++ (line ∷ back) ≡ (front ++ (line ∷ [])) ++ back =
      sym (append_assoc front (line ∷ []) back) in
    let moved : file.header_size + total (front ++ (line ∷ []))
        ≡ (file.header_size + total front) + line.0 =
      omega (arith, sum_by-append (λ l. l.0) front (line ∷ [])) in
    subst (λ offset. All (IsEntry file) (index_lines next offset (suc row) back).index) moved
      (index_lines-IsEntry file next (suc row) (front ++ (line ∷ [])) back (same ∙ split)
        (index_line-IsEntry file store row front back line same all))

-- The header's length stays.
index_lines-header :
    (lines : List Line) (store : ScriptRangeStore) (offset row : ℕ)
    → (index_lines store offset row lines).header_offset ≡ store.header_offset
unfolding index_lines index_line
index_lines-header [] store offset row = refl
index_lines-header ((size, none) ∷ lines) store offset row = index_lines-header lines store _ _
index_lines-header ((size, some (t, n)) ∷ lines) store offset row = index_lines-header lines _ _ _

pub ensure_index-IsEntry :
    (stride : ℕ) (file : CsvFile)
    → All (IsEntry file) (ensure_index (new_store stride) file).index
      × ((ensure_index (new_store stride) file).header_offset ≡ file.header_size)
unfolding ensure_index new_store
ensure_index-IsEntry stride file =
    let store = record (new_store stride) { index = []; header_offset = file.header_size } in
    let none_before : file.header_size + total [] ≡ file.header_size = omega arith in
    (
      subst (λ offset. All (IsEntry file) (index_lines store offset 0 file.lines).index) none_before
          (index_lines-IsEntry file store 0 [] file.lines refl tt),
      index_lines-header file.lines store file.header_size 0,
    )

-- The result of the search: what stands before it is not greater.
bisect_loop-le :
    (fuel : ℕ) (a : List ℕ) (x lo hi : ℕ)
    → ((p v : ℕ) → lo ≡ suc p → get_elem? a p ≡ some v → v ≤ x)
    → (p v : ℕ) → bisect_loop fuel a x lo hi ≡ suc p
    → get_elem? a p ≡ some v
    → v ≤ x
unfolding bisect_loop
bisect_loop-le zero a x lo hi h p v e g = h p v e g
bisect_loop-le (suc fuel) a x lo hi h p v e g =
    let mid = (lo + hi) / 2 in
    elim (Bool-cases (ltb lo hi)) [
      | inr ended ↦ h p v (ground (arith, e, ended)) g
      | inl running ↦ elim (Option-cases (get_elem? a mid)) [
        | inl nothing ↦ h p v (ground (arith, e, running, nothing)) g
        | inr (w, there) ↦ elim (Bool-cases (ltb x w)) [
          | inl greater ↦
              bisect_loop-le fuel a x lo mid h p v (ground (arith, e, running, there, greater)) g
          | inr small_enough ↦
              bisect_loop-le fuel a x (suc mid) hi
                (λ q u same at_q.
                  let here : mid ≡ q = cc in
                  let found : get_elem? a q ≡ some w =
                    subst (λ z. get_elem? a z ≡ some w) here there in
                  let equal : w ≡ u = cc in ground (arith, small_enough, equal))
                p v (ground (arith, e, running, there, small_enough)) g
        ]
      ]
    ]

get_elem?-All :
    {A : Type 0} (P : A → Type 0) (xs : List A) (i : ℕ) (x : A)
    → All P xs
    → get_elem? xs i ≡ some x
    → P x
get_elem?-All P [] i x all e = absurd cc
get_elem?-All P (y ∷ xs) zero x all e = (let same : y ≡ x = cc in subst P same all.0)
get_elem?-All P (y ∷ xs) (suc i) x all e = get_elem?-All P xs i x all.1 e

get_elem?-map :
    {A B : Type 0} (f : A → B) (xs : List A) (i : ℕ) (x : A)
    → get_elem? xs i ≡ some x
    → get_elem? (map f xs) i ≡ some (f x)
get_elem?-map f [] i x e = absurd cc
get_elem?-map f (y ∷ xs) zero x e = (let same : y ≡ x = cc in ap (λ z. some (f z)) same)
get_elem?-map f (y ∷ xs) (suc i) x e = get_elem?-map f xs i x e

IsEarlier-front :
    (t size : ℕ) (n : ℤ) (front back : List Line)
    → IsAscending (front ++ ((size, some (t, n)) ∷ back))
    → All (IsEarlier t) front
IsEarlier-front t size n [] back h = tt
IsEarlier-front t size n ((s, none) ∷ front) back h = (tt, IsEarlier-front t size n front back h)
IsEarlier-front t size n ((s, some (u, m)) ∷ front) back (later, h) =
    (All-middle front later, IsEarlier-front t size n front back h)
  where
    All-middle : (xs : List Line) → All (IsLater u) (xs ++ ((size, some (t, n)) ∷ back)) → u < t
    All-middle [] (this, those) = this
    All-middle (x ∷ xs) (this, those) = All-middle xs those

All-IsEarlier :
    (t start : ℕ) (lines : List Line)
    → t ≤ start
    → All (IsEarlier t) lines
    → All (IsEarlier start) lines
All-IsEarlier t start [] h all = tt
All-IsEarlier t start ((size, none) ∷ lines) h (_, all) = (tt, All-IsEarlier t start lines h all)
All-IsEarlier t start ((size, some (u, n)) ∷ lines) h (this, all) =
    (omega (arith, h, this), All-IsEarlier t start lines h all)

-- A place between two lines, with no reading before it from `start` on.
abbrev pub IsPlace : CsvFile → ℕ → ℕ → Type 0
IsPlace file start offset =
    (front : List Line) × (back : List Line) × (file.lines ≡ front ++ back)
    × (offset ≡ file.header_size + total front)
    × All (IsEarlier start) front

offset_at-IsPlace :
    (file : CsvFile) (store : ScriptRangeStore) (start r : ℕ)
    → IsAscending file.lines
    → All (IsEntry file) store.index
    → store.header_offset ≡ file.header_size
    → ((p v : ℕ)
        → r ≡ suc p
        → get_elem? (map (λ entry. entry.0) store.index) p ≡ some v
        → v ≤ start)
    → IsPlace file start (offset_at store r)
offset_at-IsPlace file store start zero ascending entries header bound =
    ([], file.lines, refl, rw header (omega arith), tt)
offset_at-IsPlace file store start (suc p) ascending entries header bound =
    elim (Option-cases (get_elem? store.index p)) [
      | inl outside ↦ rw (offset_at, outside) ([], file.lines, refl, rw header (omega arith), tt)
      | inr (entry, there) ↦
          let (front, size, n, back, same, at_front) =
            get_elem?-All (IsEntry file) store.index p entry entries there in
          let not_after =
            bound p entry.0 refl (get_elem?-map (λ e. e.0) store.index p entry there) in
          rw (offset_at, there)
            (
              front,
              (size, some (entry.0, n)) ∷ back,
              same,
              at_front,
              All-IsEarlier entry.0 start front not_after
                  (IsEarlier-front entry.0 size n front back (subst IsAscending same ascending)),
            )
    ]

pub starting_offset-IsPlace :
    (stride start : ℕ) (file : CsvFile)
    → IsAscending file.lines
    → IsPlace file start (starting_offset (ensure_index (new_store stride) file) start)
unfolding starting_offset bisect_right
starting_offset-IsPlace stride start file ascending =
    let store = ensure_index (new_store stride) file in
    let (entries, header) = ensure_index-IsEntry stride file in
    let times = map (λ entry. entry.0) store.index in
    offset_at-IsPlace file store start (bisect_right times start) ascending entries header (
      bisect_loop-le (suc (length times)) times start 0 (length times)
        (λ p v zero_is _. absurd (omega (arith, zero_is))))
