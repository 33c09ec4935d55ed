-- ===== src/Reports/Statistics/Pending.antt =====
-- `StatisticsReportWriter`: which counters are still to be written.
use native.Mathlib.Nat.{add-zero}
use predictive_autoscaling_k.Common.{
  All, Bool, Bool-cases, Option, [], ap, arith, false, inl, inr, leb, ltb, nat_Eq, nat_eq, none,
  refl, some, suc, true, zero, ℕ, ℕ_discrete, ◌+◌, ◌-◌, ◌<◌, ◌∙◌, ◌∷◌, ◌≡◌, ◌≤◌,
}
use predictive_autoscaling_k.Common.Dict.{Dict, erase, insert, lookup, lookup-insert}
use predictive_autoscaling_k.Reports.Statistics.{
  Column, Counters, StatisticsReportWriter, closed_second, flush_closed, flush_through, later_of,
  pop_rows, record_count,
}
use predictive_autoscaling_k.Reports.Statistics.Totals.{column_sum, recorded, recorded-flush_closed}

-- No second has two entries.
abbrev pub IsUnique : Dict ℕ Counters → Type 0
IsUnique [] = Unit {0}
IsUnique ((k, row) ∷ d) = (lookup k d ≡ none) × IsUnique d

abbrev pub IsSeen : Option ℕ → ℕ → Type 0
IsSeen none k = ⊥
IsSeen (some t) k = k ≤ t

-- Every second with counts in memory lies after the last one flushed, and is no later than the last seen.
pub record IsTimely (last : ℕ) (w : StatisticsReportWriter) : Type 0 where
  pub begun : (first : ℕ) × (w.first_second ≡ some first)
  pub flushed : w.last_flushed_second ≡ some last
  pub unique : IsUnique w.counts
  pub open_seconds : All (λ e. last < e.0) w.counts
  pub seen_seconds : All (λ e. IsSeen w.latest_seen_second e.0) w.counts

module _ (P : ℕ → Type 0) where
  erase-All : (k : ℕ) (d : Dict ℕ Counters) → All (λ e. P e.0) d → All (λ e. P e.0) (erase k d)
  erase-All k [] h = tt
  erase-All k ((j, row) ∷ d) h = ground (arith, erase-All k d h.1)

  insert-All :
      (k : ℕ) (row : Counters) (d : Dict ℕ Counters)
      → P k
      → All (λ e. P e.0) d
      → All (λ e. P e.0) (insert k row d)
  insert-All k row [] p h = (p, tt)
  insert-All k row ((j, w) ∷ d) p h = ground (arith, insert-All k row d p h.1)

  pop_rows-All :
      (rounds current : ℕ) (d : Dict ℕ Counters)
      → All (λ e. P e.0) d
      → All (λ e. P e.0) (pop_rows rounds current d).1
  unfolding pop_rows
  pop_rows-All zero current d h = h
  pop_rows-All (suc rounds) current d h =
      pop_rows-All rounds (suc current) (erase current d) (erase-All current d h)

lookup-erase-none :
    (j k : ℕ) (d : Dict ℕ Counters) → lookup j d ≡ none → lookup j (erase k d) ≡ none
lookup-erase-none j k [] h = refl
lookup-erase-none j k ((i, row) ∷ d) h = ground (arith, lookup-erase-none j k d)

erase-IsUnique : (k : ℕ) (d : Dict ℕ Counters) → IsUnique d → IsUnique (erase k d)
erase-IsUnique k [] h = tt
erase-IsUnique k ((j, row) ∷ d) h =
    ground (arith, erase-IsUnique k d h.1, lookup-erase-none j k d h.0)

insert-IsUnique :
    (k : ℕ) (row : Counters) (d : Dict ℕ Counters) → IsUnique d → IsUnique (insert k row d)
insert-IsUnique k row [] h = (refl, tt)
insert-IsUnique k row ((j, w) ∷ d) h =
    ground (arith, insert-IsUnique k row d h.1, lookup-insert k j row d)

absent-All :
    (k : ℕ) (d : Dict ℕ Counters)
    → lookup k d ≡ none
    → All (λ e. k ≤ e.0) d
    → All (λ e. suc k ≤ e.0) d
absent-All k [] n h = tt
absent-All k ((j, row) ∷ d) n h = ground (arith, absent-All k d)

erase-Beyond :
    (k : ℕ) (d : Dict ℕ Counters)
    → IsUnique d
    → All (λ e. k ≤ e.0) d
    → All (λ e. suc k ≤ e.0) (erase k d)
erase-Beyond k [] u h = tt
erase-Beyond k ((j, row) ∷ d) u h = elim (ℕ_discrete j k) [
  | yes same ↦
      let hit : nat_eq j k ≡ true = ground arith in rw hit (absent-All k d (rw same at u.0) h.1)
  | no other ↦
      let miss : nat_eq j k ≡ false = ground arith in
      let above = h.0 in rw miss (omega arith, erase-Beyond k d u.1 h.1)
]

-- Popping a range of seconds from the earliest on leaves only later ones.
pop_rows-Beyond :
    (rounds current : ℕ) (d : Dict ℕ Counters)
    → IsUnique d
    → All (λ e. current ≤ e.0) d
    → IsUnique (pop_rows rounds current d).1
      × All (λ e. current + rounds ≤ e.0) (pop_rows rounds current d).1
unfolding pop_rows
pop_rows-Beyond zero current d u h = (u, rw add-zero h)
pop_rows-Beyond (suc rounds) current d u h =
    let e : current + suc rounds ≡ suc current + rounds = omega arith in
    rw e (
      pop_rows-Beyond rounds (suc current) (erase current d) (erase-IsUnique current d u)
        (erase-Beyond current d u h))

-- A predicate on the seconds holds of every entry of a longer or weaker kind.
All-weaken :
    (P Q : ℕ → Type 0) (d : Dict ℕ Counters)
    → ((k : ℕ) → P k → Q k)
    → All (λ e. P e.0) d
    → All (λ e. Q e.0) d
All-weaken P Q [] f h = tt
All-weaken P Q ((k, row) ∷ d) f h = (f k h.0, All-weaken P Q d f h.1)

All-both-empty :
    (last : ℕ) (through : ℕ) (d : Dict ℕ Counters)
    → through ≤ last
    → All (λ e. last < e.0) d
    → All (λ e. e.0 ≤ through) d
    → d ≡ []
All-both-empty last through [] l h k = refl
All-both-empty last through ((j, row) ∷ d) l h k =
    let below = h.0 in let above = k.0 in absurd (omega arith)

later_of-IsSeen : (o : Option ℕ) (t k : ℕ) → IsSeen o k → IsSeen (later_of o t) k
later_of-IsSeen none t k h = elim h [ ]
later_of-IsSeen (some s) t k h = elim (Bool-cases (ltb s t)) [
  | inl e ↦ let below : s < t = ground arith in rw e (omega arith)
  | inr e ↦ rw e h
]

later_of_self : (o : Option ℕ) (t : ℕ) → IsSeen (later_of o t) t
later_of_self none t = omega arith
later_of_self (some s) t = elim (Bool-cases (ltb s t)) [
  | inl e ↦ rw e (omega arith)
  | inr e ↦ let above : t ≤ s = ground arith in rw e above
]

-- A count for a second after the last one flushed keeps the writer timely.
pub record_count-IsTimely :
    (last bucket n : ℕ) (column : Column) (w : StatisticsReportWriter)
    → IsTimely last w
    → last < bucket
    → IsTimely last (record_count bucket column n w)
unfolding record_count
record_count-IsTimely last bucket n column w h l = record {
  begun = h.begun;
  flushed = h.flushed;
  unique = insert-IsUnique bucket _ w.counts h.unique;
  open_seconds = insert-All (λ k. last < k) bucket _ w.counts l h.open_seconds;
  seen_seconds =
      insert-All (IsSeen (later_of w.latest_seen_second bucket)) bucket _ w.counts
        (later_of_self w.latest_seen_second bucket)
        (All-weaken (IsSeen w.latest_seen_second) _ w.counts
          (later_of-IsSeen w.latest_seen_second bucket) h.seen_seconds);
}

flush_through-IsTimely :
    (last through : ℕ) (w : StatisticsReportWriter)
    → IsTimely last w
    → (next : ℕ) × IsTimely next (flush_through through last w) × (through ≤ next)
unfolding flush_through
flush_through-IsTimely last through w h = elim (Bool-cases (leb through last)) [
  | inl e ↦ let below : through ≤ last = ground arith in (last, rw e h, below)
  | inr e ↦
      let above : last < through = ground arith in
      let popped = pop_rows-Beyond (through - last) (suc last) w.counts h.unique h.open_seconds in
      let end : suc last + (through - last) ≡ suc through = omega arith in
      (
        through,
        rw e (record {
          begun = h.begun;
          flushed = refl;
          unique = popped.0;
          open_seconds = rw end at popped.1;
          seen_seconds =
              pop_rows-All (IsSeen w.latest_seen_second) (through - last) (suc last) w.counts
                h.seen_seconds;
        }),
        omega arith,
      )
]

-- Every flush keeps the writer timely, with a later last second or the same.
pub flush_closed-IsTimely :
    (last : ℕ) (final : Bool) (now : ℕ) (w : StatisticsReportWriter)
    → IsTimely last w
    → (next : ℕ) × IsTimely next (flush_closed final now w)
unfolding flush_closed
flush_closed-IsTimely last final now w h =
    simp (h.begun.1, h.flushed) (closes (closed_second final now h.begun.0 w.latest_seen_second))
  where
    closes :
        (o : Option ℕ)
        → (next : ℕ) × IsTimely next (elim o [ none ↦ w | some t ↦ flush_through t last w ])
    closes none = (last, h)
    closes (some t) = let f = flush_through-IsTimely last t w h in (f.0, f.1)

flush_through-seen :
    (last through : ℕ) (w : StatisticsReportWriter)
    → (flush_through through last w).latest_seen_second ≡ w.latest_seen_second
unfolding flush_through
flush_through-seen last through w = ground arith

flush_through-empty :
    (last through : ℕ) (w : StatisticsReportWriter)
    → IsTimely last w
    → w.latest_seen_second ≡ some through
    → (flush_through through last w).counts ≡ []
flush_through-empty last through w h seen =
    let (next, timely, reached) = flush_through-IsTimely last through w h in
    let now_seen = timely.seen_seconds in
    All-both-empty next through (flush_through through last w).counts reached timely.open_seconds
      (rw (flush_through-seen last through w ∙ seen) at now_seen)

nothing_seen : (d : Dict ℕ Counters) → All (λ e. ⊥) d → d ≡ []
nothing_seen [] h = refl
nothing_seen (e ∷ d) h = absurd (h.0)

final-empty :
    (last now : ℕ) (w : StatisticsReportWriter)
    → IsTimely last w
    → (flush_closed true now w).counts ≡ []
unfolding flush_closed
final-empty last now w h = simp (h.begun.1, h.flushed) (closes w.latest_seen_second refl)
  where
    left : Option ℕ → StatisticsReportWriter
    left o = elim o [ none ↦ w | some t ↦ flush_through t last w ]

    closes : (o : Option ℕ) → w.latest_seen_second ≡ o → (left o).counts ≡ []
    closes none e = nothing_seen w.counts (rw e at h.seen_seconds)
    closes (some t) e = flush_through-empty last t w h e

-- If every count came before its second was flushed, the final flush writes them all: nothing is left in
-- memory, and the file holds all that was recorded of each column.
pub flush_closed-final :
    (last now : ℕ) (c : Column) (w : StatisticsReportWriter)
    → IsTimely last w
    → ((flush_closed true now w).counts ≡ [])
      × (column_sum c (flush_closed true now w).file ≡ recorded c w)
unfolding recorded
flush_closed-final last now c w h =
    let empty = final-empty last now w h in
    (empty, omega (arith, ap (column_sum c) empty, recorded-flush_closed c true now w))
