-- ===== src/Reports/Requests/Sorting.antt =====
-- What a key has in a list of counts, and `sorted`.
use predictive_autoscaling_k.Common.{
  Bool-cases, List, [], arith, if◌then◌else◌, inl, inr, max, refl, ℕ, ◌++◌, ◌+◌, ◌∷◌, ◌≡◌, ◌≤◌,
}
use predictive_autoscaling_k.Common.Dict.{Dict}
use predictive_autoscaling_k.Reports.Requests.{
  Key, add_at, insert_item, key_eq, key_eq_iff, key_leb, sorted_items,
}

-- The sum of the counts of a key, and the number of its entries.
unfoldable pub total_of : Key → List (Key × ℕ) → ℕ
total_of k [] = 0
total_of k ((j, n) ∷ items) = (if key_eq j k then n else 0) + total_of k items

unfoldable pub entries_of : Key → List (Key × ℕ) → ℕ
entries_of k [] = 0
entries_of k ((j, n) ∷ items) = (if key_eq j k then 1 else 0) + entries_of k items

pub total_of-append :
    (k : Key) (xs ys : List (Key × ℕ)) → total_of k (xs ++ ys) ≡ total_of k xs + total_of k ys
unfolding total_of
total_of-append k [] ys = omega arith
total_of-append k ((j, n) ∷ xs) ys = omega (arith, total_of-append k xs ys)

pub entries_of-append :
    (k : Key) (xs ys : List (Key × ℕ)) → entries_of k (xs ++ ys) ≡ entries_of k xs + entries_of k ys
unfolding entries_of
entries_of-append k [] ys = omega arith
entries_of-append k ((j, n) ∷ xs) ys = omega (arith, entries_of-append k xs ys)

insert_item-totals :
    (k : Key) (e : Key × ℕ) (items : List (Key × ℕ))
    → (total_of k (insert_item e items) ≡ total_of k (e ∷ items))
      × (entries_of k (insert_item e items) ≡ entries_of k (e ∷ items))
unfolding total_of entries_of insert_item
insert_item-totals k e [] = (refl, refl)
insert_item-totals k e (f ∷ items) = elim (Bool-cases (key_leb e.0 f.0)) [
  | inl first ↦ rw first (refl, refl)
  | inr later ↦
      let ih = insert_item-totals k e items in rw later (omega (arith, ih.0), omega (arith, ih.1))
]

pub sorted_items-totals :
    (k : Key) (items : List (Key × ℕ))
    → (total_of k (sorted_items items) ≡ total_of k items)
      × (entries_of k (sorted_items items) ≡ entries_of k items)
unfolding sorted_items total_of entries_of
sorted_items-totals k [] = (refl, refl)
sorted_items-totals k (e ∷ items) =
    let ih = sorted_items-totals k items in
    let step = insert_item-totals k e (sorted_items items) in
    (omega (arith, ih.0, step.0), omega (arith, ih.1, step.1))

-- Adding to a key moves its total by the count and leaves the others.
pub total_of-add_at :
    (k j : Key) (n : ℕ) (d : Dict Key ℕ)
    → total_of k (add_at j n d) ≡ total_of k d + (if key_eq j k then n else 0)
unfolding total_of add_at
total_of-add_at k j n [] = omega arith
total_of-add_at k j n ((i, m) ∷ d) = elim (Bool-cases (key_eq i j)) [
  | inl hit ↦ let e = (key_eq_iff i j).0 hit in rw (hit, e) (ground arith)
  | inr miss ↦ rw miss (omega (arith, total_of-add_at k j n d))
]

-- It keeps the keys apart.
pub entries_of-add_at :
    (k j : Key) (n : ℕ) (d : Dict Key ℕ)
    → entries_of k (add_at j n d) ≤ (if key_eq j k then max 1 (entries_of k d) else entries_of k d)
unfolding entries_of add_at
entries_of-add_at k j n [] = ground arith
entries_of-add_at k j n ((i, m) ∷ d) = elim (Bool-cases (key_eq i j)) [
  | inl hit ↦ let e = (key_eq_iff i j).0 hit in rw (hit, e) (ground arith)
  | inr miss ↦
      rw miss
        (ground (arith, entries_of-add_at k j n d, key_eq_iff i j, key_eq_iff i k, key_eq_iff j k))
]
