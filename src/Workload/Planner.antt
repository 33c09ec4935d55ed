-- ===== src/Workload/Planner.antt =====
-- The parser of the request classes and the planner.
use predictive_autoscaling_k.Common.{
  All, Bool, Bool-cases, List, Option, Option-cases, String, [], arith, dec_lt, false,
  if◌then◌else◌, inl, inr, length, ltb, none, not, refl, some, string_Eq, sum, sum_by, true, zip, ℕ,
  ◌+◌, ◌<◌, ◌==◌, ◌∷◌, ◌≡◌, ◌≤◌,
}
use predictive_autoscaling_k.Common.Dict.{lookup}
use predictive_autoscaling_k.Workload.{
  Parsed, WorkloadConfig, duplicate_classes, err, find_class, has_any, has_duplicates, has_unknown,
  is_supported, no_configured_class, no_request_class, occurrences, ok, parse_request_classes,
  request_class_columns, request_class_for_index, unsupported_classes,
}

-- The requests of class `c` in a second.
abbrev pub count_of : String → List (String × ℕ) → ℕ
count_of c = sum_by (λ e. if e.0 == c then e.1 else 0)

abbrev pub total : List (String × ℕ) → ℕ
total = sum_by (λ e. e.1)

abbrev pub is_class : String → Option String → Bool
is_class c none = false
is_class c (some d) = d == c

find_class-some :
    (r i : ℕ) (es : List (String × ℕ))
    → i < r + total es
    → r ≤ i
    → (c : String) × (find_class r i es ≡ some c)
unfolding find_class
find_class-some r i [] h l = absurd (omega arith)
find_class-some r i ((k, n) ∷ es) h l = elim (dec_lt i (r + n)) [
  | yes inside ↦ (k, ground arith)
  | no outside ↦
      let found = find_class-some (r + n) i es (omega arith) (omega arith) in
      (found.0, ground (arith, found.1))
]

find_class-none : (r i : ℕ) (es : List (String × ℕ)) → r + total es ≤ i → find_class r i es ≡ none
unfolding find_class
find_class-none r i [] h = refl
find_class-none r i ((k, n) ∷ es) h = ground (arith, find_class-none (r + n) i es)

module _ (c k : String) (r n : ℕ) (es : List (String × ℕ)) where
  abbrev asks_for : ℕ → Bool
  asks_for i = is_class c (find_class r i ((k, n) ∷ es))

total-zip : (cs : List String) (ns : List ℕ) → length cs ≡ length ns → total (zip cs ns) ≡ sum ns
total-zip [] [] h = refl
total-zip [] (n ∷ ns) h = absurd (omega arith)
total-zip (c ∷ cs) [] h = absurd (omega arith)
total-zip (c ∷ cs) (n ∷ ns) h = omega (arith, total-zip cs ns (omega arith))

-- A class was found for an index below the number of requests; none, for another.
abbrev pub IsWithin : ℕ → ℕ → Option String → Type 0
IsWithin total_requests index none = total_requests ≤ index
IsWithin total_requests index (some c) = index < total_requests

find_class-IsWithin : (i : ℕ) (es : List (String × ℕ)) → IsWithin (total es) i (find_class 0 i es)
find_class-IsWithin i es = elim (dec_lt i (total es)) [
  | yes below ↦ let found = find_class-some 0 i es (omega arith) (omega arith) in rw (found.1) below
  | no above ↦ rw (find_class-none 0 i es (omega arith)) (omega arith)
]

-- With one count for each configured class, the planner names a class for an index below the sum of
-- the counts, and raises IndexError for any other index.
pub request_class_for_index-IsWithin :
    (c : WorkloadConfig) (counts : List ℕ) (i : ℕ)
    → length c.request_classes ≡ length counts
    → IsWithin (sum counts) i (request_class_for_index c counts i)
unfolding request_class_for_index
request_class_for_index-IsWithin c counts i h =
    rw (← total-zip c.request_classes counts h)
      (find_class-IsWithin i (zip c.request_classes counts))

has_any-false {ℓ} :
    (p : String → Bool) (P : String → Type ℓ)
    → ((s : String) → p s ≡ false → P s)
    → (xs : List String) → has_any p xs ≡ false
    → All P xs
unfolding has_any
has_any-false p P f [] h = tt
has_any-false p P f (x ∷ xs) h = (f x (ground arith), has_any-false p P f xs (ground arith))

-- The class has a column of its own in the script.
abbrev pub HasColumn : String → Type 0
HasColumn c = (column : String) × (lookup c request_class_columns ≡ some column)

supported-HasColumn : (c : String) → not (is_supported c) ≡ false → HasColumn c
unfolding is_supported
supported-HasColumn c h = elim (Option-cases (lookup c request_class_columns)) [
  | inl e ↦ absurd (unsupported (lookup c request_class_columns) e h)
  | inr found ↦ found
]
  where
    unsupported :
        (o : Option String) → o ≡ none → not (elim o [ none ↦ false | some _ ↦ true ]) ≡ false → ⊥
    unsupported none e k = cc
    unsupported (some a) e k = cc

-- What was parsed, or what is wrong with the segments.
abbrev pub IsAccepted : List String → Parsed (List String) → Type 0
IsAccepted segments (ok cs) =
    (cs ≡ segments) × All HasColumn cs × All (λ s. occurrences s cs ≤ 1) cs
IsAccepted segments (err no_request_class) = segments ≡ []
IsAccepted segments (err duplicate_classes) = has_duplicates segments ≡ true
IsAccepted segments (err unsupported_classes) =
    (has_unknown segments ≡ true) × All (λ s. occurrences s segments ≤ 1) segments
IsAccepted segments (err no_configured_class) = ⊥

no_duplicates : (cs : List String) → has_duplicates cs ≡ false → All (λ s. occurrences s cs ≤ 1) cs
unfolding has_duplicates
no_duplicates cs = has_any-false _ _ (λ s h. at_most (occurrences s cs) h) cs
  where
    at_most : (n : ℕ) → ltb 1 n ≡ false → n ≤ 1
    at_most n h = ground arith

no_unknown : (cs : List String) → has_unknown cs ≡ false → All HasColumn cs
unfolding has_unknown
no_unknown cs = has_any-false _ _ supported-HasColumn cs

-- The parser returns the given classes, when each of them has a column in the script and none is given
-- twice. Else it names what is wrong: there is none, one is given twice, or one is not supported.
pub parse_request_classes-IsAccepted :
    (segments : List String) → IsAccepted segments (parse_request_classes (some segments))
unfolding parse_request_classes
parse_request_classes-IsAccepted [] = refl
parse_request_classes-IsAccepted (c ∷ cs) = elim (Bool-cases (has_duplicates (c ∷ cs))) [
  | inl e ↦ rw e e
  | inr e ↦ elim (Bool-cases (has_unknown (c ∷ cs))) [
    | inl u ↦ rw (e, u) (u, no_duplicates (c ∷ cs) e)
    | inr u ↦ rw (e, u) (refl, no_unknown (c ∷ cs) u, no_duplicates (c ∷ cs) e)
  ]
]
