-- ===== src/LoopHistory/Repeats.antt =====
-- `_append_if_new`: a loop that is synchronized a second time.
use mathlib.Core.Path.{subst}
use predictive_autoscaling_k.Common.{
  Bool, Bool-cases, List, Option, [], ap, arith, drop, false, inl, inr, length, length-append, ltb,
  none, not, refl, some, string_Eq, suc, sym, true, zero, ℕ, ◌&&◌, ◌++◌, ◌-◌, ◌<◌, ◌==◌, ◌∙◌, ◌∷◌,
  ◌≡◌, ◌⊎◌,
}
use predictive_autoscaling_k.LoopHistory.{
  LoopRecord, append_after, append_bounded, append_if_new, last_of, replace_last,
}

last_of-append : (xs : List LoopRecord) (r : LoopRecord) → last_of (xs ++ r ∷ []) ≡ some r
unfolding last_of
last_of-append [] r = refl
last_of-append (x ∷ []) r = refl
last_of-append (x ∷ y ∷ xs) r = last_of-append (y ∷ xs) r

last_of-drop : (n : ℕ) (xs : List LoopRecord) → n < length xs → last_of (drop n xs) ≡ last_of xs
unfolding last_of
last_of-drop zero xs h = refl
last_of-drop (suc n) [] h = refl
last_of-drop (suc n) (x ∷ []) h = absurd (omega arith)
last_of-drop (suc n) (x ∷ y ∷ xs) h = last_of-drop n (y ∷ xs) (omega arith)

last_of-append_bounded :
    (limit : ℕ) (xs : List LoopRecord) (r : LoopRecord)
    → 0 < limit
    → last_of (append_bounded limit xs r) ≡ some r
unfolding append_bounded
last_of-append_bounded limit xs r h =
    let longer = xs ++ r ∷ [] in
    let size = length-append xs (r ∷ []) in
    elim (Bool-cases (ltb limit (length longer))) [
      | inl long ↦
          rw long (last_of-drop (length longer - limit) longer (ground arith) ∙ last_of-append xs r)
      | inr short ↦ rw short (last_of-append xs r)
    ]

last_of-replace_last :
    (xs : List LoopRecord) (l r : LoopRecord)
    → last_of xs ≡ some l
    → last_of (replace_last xs r) ≡ some r
unfolding last_of replace_last
last_of-replace_last [] l r h = cc
last_of-replace_last (x ∷ []) l r h = refl
last_of-replace_last (x ∷ y ∷ []) l r h = refl
last_of-replace_last (x ∷ y ∷ z ∷ xs) l r h = last_of-replace_last (y ∷ z ∷ xs) l r h

-- Nothing is appended when the last item has the record's key.
append_if_new_same :
    (limit : ℕ) (xs : List LoopRecord) (r l : LoopRecord)
    → last_of xs ≡ some l
    → (l.loop_key == r.stripped_key) ≡ true
    → append_if_new limit xs (some r) ≡ (xs, false)
unfolding append_if_new
append_if_new_same limit xs r l e same = elim (Bool-cases (r.stripped_key == "")) [
  | inl blank ↦ simp (blank, append_if_new) refl
  | inr key ↦ simp (key, e, same, append_if_new, append_after) refl
]

-- Either nothing changes, or the record is the last item.
abbrev Settles : List LoopRecord → LoopRecord → List LoopRecord × Bool → Type 0
Settles xs r result = (result ≡ (xs, false)) ⊎ (last_of result.0 ≡ some r)

append_after-Settles :
    (limit : ℕ) (xs : List LoopRecord) (r : LoopRecord) (o : Option LoopRecord)
    → 0 < limit
    → last_of xs ≡ o
    → Settles xs r (append_after limit xs r o)
unfolding append_after
append_after-Settles limit xs r none h e = inr (last_of-append_bounded limit xs r h)
append_after-Settles limit xs r (some l) h e = elim (Bool-cases (l.loop_key == r.stripped_key)) [
  | inl same ↦ inl (simp (same, append_after) refl)
  | inr new_key ↦
      elim (Bool-cases (not (r.minute_bucket == "") && r.minute_bucket == l.minute_bucket)) [
        | inr new_minute ↦
            inr (simp (new_key, new_minute, append_after) (last_of-append_bounded limit xs r h))
        | inl minute ↦ elim (Bool-cases (l.body == r.body)) [
          | inl same ↦ inl (simp (new_key, minute, same, append_after) refl)
          | inr changed ↦
              inr (simp (new_key, minute, changed, append_after) (last_of-replace_last xs l r e))
        ]
      ]
]

append_if_new-Settles :
    (limit : ℕ) (xs : List LoopRecord) (r : LoopRecord)
    → 0 < limit
    → Settles xs r (append_if_new limit xs (some r))
unfolding append_if_new
append_if_new-Settles limit xs r h = elim (Bool-cases (r.stripped_key == "")) [
  | inl blank ↦ inl (simp (blank, append_if_new) refl)
  | inr key ↦ simp (key, append_if_new) (append_after-Settles limit xs r (last_of xs) h refl)
]

-- With a limit of at least one, a loop whose key has no blanks around it changes nothing when it is
-- synchronized again right after: the list stays as it is, and no change is reported.
pub append_if_new-append_if_new :
    (limit : ℕ) (xs : List LoopRecord) (r : LoopRecord)
    → 0 < limit
    → (r.loop_key == r.stripped_key) ≡ true
    → append_if_new limit (append_if_new limit xs (some r)).0 (some r)
      ≡ ((append_if_new limit xs (some r)).0, false)
append_if_new-append_if_new limit xs r h key = elim (append_if_new-Settles limit xs r h) [
  | inl same ↦
      subst (λ ys. append_if_new limit ys (some r) ≡ (ys, false)) (sym (ap (λ p. p.0) same)) same
  | inr last ↦ append_if_new_same limit (append_if_new limit xs (some r)).0 r r last key
]
