-- ===== src/RangeStore/Refinement.antt =====
-- Reading from the index on gives what the whole file holds.
use mathlib.Core.Path.{subst}
use predictive_autoscaling_k.Common.{
  All, List, [], ap, ap₂, arith, leb, map, nat_Eq, none, range_from, refl, some, suc, sym, true,
  zero, ℕ, ◌*◌, ◌++◌, ◌+◌, ◌-◌, ◌<◌, ◌∙◌, ◌∷◌, ◌≡◌,
}
use predictive_autoscaling_k.Common.Int.{pos}
use predictive_autoscaling_k.RangeStore.{
  CsvFile, Line, ScriptRangeStore, collect, ensure_index, new_store, point_of, points_of, read_from,
  requests_at, seek, slice_filled_series, starting_offset,
}
use predictive_autoscaling_k.RangeStore.Index.{IsPlace, starting_offset-IsPlace, total}
use predictive_autoscaling_k.RangeStore.Window.{
  IsAscending, last_in, last_in_earlier, requests_at-collect, requests_in,
}

abbrev pub HasSize : Line → Type 0
HasSize line = 0 < line.0

seek-total :
    (front back : List Line) → All HasSize front → seek (total front) (front ++ back) ≡ some back
unfolding seek
seek-total [] [] h = refl
seek-total [] (line ∷ back) h = refl
seek-total (line ∷ front) back (full, h) =
    let rest : (line.0 + total front) - line.0 ≡ total front = omega arith in
    ground (arith, full, rest, seek-total front back h)

All-front : (front back : List Line) → All HasSize (front ++ back) → All HasSize front
All-front [] back h = tt
All-front (line ∷ front) back (full, h) = (full, All-front front back h)

IsAscending-back : (front back : List Line) → IsAscending (front ++ back) → IsAscending back
IsAscending-back [] back h = h
IsAscending-back ((size, none) ∷ front) back h = IsAscending-back front back h
IsAscending-back ((size, some reading) ∷ front) back (later, h) = IsAscending-back front back h

map-range_from :
    {A : Type 0} (f g : ℕ → A) (a n : ℕ)
    → ((k : ℕ) → k < a + n → f k ≡ g k)
    → map f (range_from a n) ≡ map g (range_from a n)
map-range_from f g a zero h = refl
map-range_from f g a (suc n) h =
    ap₂ (λ x xs. x ∷ xs) (h a (omega arith))
      (map-range_from f g (suc a) n (λ k l. h k (omega (arith, l))))

read_from-IsPlace :
    (file : CsvFile) (start offset : ℕ)
    → All HasSize file.lines
    → (place : IsPlace file start offset) → read_from file offset ≡ some place.1
unfolding read_from
read_from-IsPlace file start offset sizes (front, back, same, at_front, earlier) =
    let behind : (file.header_size + total front) - file.header_size ≡ total front = omega arith in
    let inside : leb file.header_size (file.header_size + total front) ≡ true = ground arith in
    rw (at_front, inside, behind, same)
      (seek-total front back (All-front front back (subst (All HasSize) same sizes)))

requests_in-back :
    (file : CsvFile) (start offset duration real : ℕ) (place : IsPlace file start offset)
    → IsAscending file.lines
    → points_of start real duration place.1
      ≡ map (point_of start real (requests_in file.lines start)) (range_from 0 duration)
unfolding points_of
requests_in-back file start offset duration real (front, back, same, at_front, earlier) ascending =
    map-range_from _ _ 0 duration λ k within.
      let from = start + k * 1000000 in
      let here =
        requests_at-collect start duration k back [] (omega (arith, within))
          (IsAscending-back front back (subst IsAscending same ascending)) in
      let all_of =
        last_in_earlier from (from + 1000000) start front back (pos 0) (omega arith) earlier in
      let equal : requests_at (collect start (start + duration * 1000000) back []) k
          ≡ requests_in file.lines start k =
        here
        ∙ sym (
            subst
              (λ ls.
                last_in from (from + 1000000) ls (pos 0)
                ≡ last_in from (from + 1000000) back (pos 0))
              (sym same) all_of) in
      ap
        (λ n. record {
          world_cup_time = start + k * 1000000;
          real_time = real + k * 1000000;
          requests = n;
        })
        equal

slice_filled_series-read :
    (store : ScriptRangeStore) (file : CsvFile) (start real duration : ℕ) (lines : List Line)
    → read_from file (starting_offset store start) ≡ some lines
    → slice_filled_series store file start real duration
      ≡ some (points_of start real duration lines)
unfolding slice_filled_series
slice_filled_series-read store file start real duration lines h = rw (slice_filled_series, h) refl

-- The points that the store reads from its index on are those of the whole file: for each second of the
-- window the last reading of the second, or 0. The lines have a length, and the readings are in ascending
-- order of time.
pub slice_filled_series-requests_in :
    (stride : ℕ) (file : CsvFile) (world_cup_start real_start duration_seconds : ℕ)
    → All HasSize file.lines
    → IsAscending file.lines
    → slice_filled_series
        (ensure_index (new_store stride) file)
        file
        world_cup_start
        real_start
        duration_seconds
      ≡ some (
          map
            (point_of world_cup_start real_start (requests_in file.lines world_cup_start))
            (range_from 0 duration_seconds))
slice_filled_series-requests_in stride file start real duration sizes ascending =
    let store = ensure_index (new_store stride) file in
    let offset = starting_offset store start in
    let place = starting_offset-IsPlace stride start file ascending in
    slice_filled_series-read store file start real duration place.1
      (read_from-IsPlace file start offset sizes place)
    ∙ ap some (requests_in-back file start offset duration real place ascending)
