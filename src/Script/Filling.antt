-- ===== src/Script/Filling.antt =====
-- How the gaps between two rows are filled, and which files load.
use predictive_autoscaling_k.Common.{
  All, Bool-cases, List, Option, [], arith, dec_lt, inl, inr, ltb, none, refl, some, suc, zero, ℕ,
  ◌%◌, ◌++◌, ◌+◌, ◌-◌, ◌<◌, ◌∷◌, ◌≡◌, ◌≢◌, ◌≤◌,
}
use predictive_autoscaling_k.Common.Int.{pos}
use predictive_autoscaling_k.Script.{
  CountCell, CsvFile, Row, ScriptPoint, TimestampCell, aware, before_range, datetime_end, err,
  fill_gap, integral, load_rows, load_script_points, naive, not_iso, ok, overflow, parse_timestamp,
  second,
}
use predictive_autoscaling_k.Script.Timeline.{
  RowLoads, fill_gap_done, load_rows-RowLoads, load_script_points-rows,
}

-- The points are a second apart, from the time `t` on.
abbrev pub IsEverySecond : ℕ → List ScriptPoint → Type 0
IsEverySecond t [] = Unit {0}
IsEverySecond t (p ∷ ps) = (p.timestamp ≡ t) × IsEverySecond (t + second) ps

-- The row's time has this fraction of a second, if it parses.
abbrev pub HasPhase : ℕ → Row → Type 0
HasPhase phase r = (t : ℕ) → r.datetime ≡ some (aware t) → t % second ≡ phase

fill_gap-IsEverySecond :
    (classes fuel c t : ℕ) (p : ScriptPoint) (ps : List ScriptPoint)
    → c ≤ t
    → t - c ≤ fuel
    → c % second ≡ t % second
    → p.timestamp ≡ t
    → IsEverySecond (t + second) ps
    → IsEverySecond c (fill_gap classes fuel c t ++ p ∷ ps)
unfolding fill_gap
fill_gap-IsEverySecond classes zero c t p ps l f m e h =
    let same : t ≡ c = omega arith in (omega arith, rw same at h)
fill_gap-IsEverySecond classes (suc fuel) c t p ps l f m e h = elim (dec_lt c t) [
  | yes below ↦
      let rest =
        fill_gap-IsEverySecond classes fuel (c + second) t p ps (omega arith) (omega arith)
          (omega arith) e h in
      ground (arith, rest)
  | no above ↦ let same : t ≡ c = omega arith in ground (arith, same, h)
]

-- More fuel than the microseconds of the gap changes nothing: the loop has ended by its own test.
pub fill_gap_fuel :
    (classes fuel more c t : ℕ)
    → t - c ≤ fuel
    → t - c ≤ more
    → fill_gap classes fuel c t ≡ fill_gap classes more c t
unfolding fill_gap
fill_gap_fuel classes zero zero c t h k = refl
fill_gap_fuel classes zero (suc more) c t h k = ground arith
fill_gap_fuel classes (suc fuel) zero c t h k = ground arith
fill_gap_fuel classes (suc fuel) (suc more) c t h k = elim (dec_lt c t) [
  | yes below ↦
      ground (arith, fill_gap_fuel classes fuel more (c + second) t (omega arith) (omega arith))
  | no above ↦ ground arith
]

-- Where the points begin: at the running time, or at the first point.
abbrev pub start_of : Option ℕ → List ScriptPoint → ℕ
start_of (some c) ps = c
start_of none [] = 0
start_of none (p ∷ ps) = p.timestamp

abbrev OnGrid : ℕ → Option ℕ → Option ℕ → Type 0
OnGrid phase none none = Unit {0}
OnGrid phase none (some c) = ⊥
OnGrid phase (some l) none = ⊥
OnGrid phase (some l) (some c) = (c ≡ l + second) × (l % second ≡ phase)

parse_timestamp-aware :
    (d : Option TimestampCell) (line t : ℕ) → parse_timestamp d line ≡ ok t → d ≡ some (aware t)
unfolding parse_timestamp
parse_timestamp-aware none line t h = cc
parse_timestamp-aware (some not_iso) line t h = cc
parse_timestamp-aware (some (naive s)) line t h = cc
parse_timestamp-aware (some before_range) line t h = cc
parse_timestamp-aware (some (aware s)) line t h = elim (Bool-cases (ltb s datetime_end)) [
  | inl within ↦ let same : ok s ≡ ok t = rw within at h in cc
  | inr beyond ↦ let failed : err overflow ≡ ok t = rw beyond at h in cc
]

assemble-IsEverySecond :
    (phase classes : ℕ) (row : Row) (rows : List Row) (line : ℕ) (current last : Option ℕ)
    (points : List ScriptPoint)
    → OnGrid phase last current
    → (l : RowLoads classes row rows line current last points) → l.timestamp % second ≡ phase
    → IsEverySecond (l.timestamp + second) l.rest
    → IsEverySecond (start_of current points) points
assemble-IsEverySecond phase classes row rows line none none points g l m h =
    rw
      (
        ← l.splits,
        fill_gap_done classes (l.timestamp - l.timestamp) l.timestamp l.timestamp (omega arith),
      )
      (refl, h)
assemble-IsEverySecond phase classes row rows line none (some b) points g l m h = elim g [ ]
assemble-IsEverySecond phase classes row rows line (some c) none points g l m h = elim g [ ]
assemble-IsEverySecond phase classes row rows line (some c) (some b) points g l m h =
    let later : b < l.timestamp = ground (arith, l.not_before, l.not_again) in
    rw (← l.splits) (
      fill_gap-IsEverySecond classes (l.timestamp - c) c l.timestamp _ l.rest (omega arith)
        (omega arith) (omega arith) refl h)

load_rows-IsEverySecond :
    (phase classes : ℕ) (rows : List Row) (line : ℕ) (current last : Option ℕ)
    (points : List ScriptPoint)
    → OnGrid phase last current
    → All (HasPhase phase) rows
    → load_rows classes rows line current last ≡ ok points
    → IsEverySecond (start_of current points) points
unfolding load_rows
load_rows-IsEverySecond phase classes [] line current last points g a h =
    let e : points ≡ [] = cc in rw e tt
load_rows-IsEverySecond phase classes (row ∷ rows) line current last points g a h =
    let l = load_rows-RowLoads classes row rows line current last h in
    let m = a.0 l.timestamp (parse_timestamp-aware row.datetime line l.timestamp l.stamp_parses) in
    assemble-IsEverySecond phase classes row rows line current last points g l m (
      load_rows-IsEverySecond phase classes rows (suc line) (some (l.timestamp + second))
        (some l.timestamp) l.rest (refl, m) a.1 l.rest_loads)

-- When all the rows' times have the same fraction of a second, a script that loads has a point for every
-- second from its first point on: its n-th point stands n seconds after the first.
pub load_script_points-IsEverySecond :
    (f : CsvFile) (phase classes : ℕ) (points : List ScriptPoint)
    → All (HasPhase phase) f.rows
    → load_script_points f classes ≡ ok points
    → IsEverySecond (start_of none points) points
load_script_points-IsEverySecond f phase classes points a h =
    load_rows-IsEverySecond phase classes f.rows 2 none none points tt a
      (load_script_points-rows f classes points h).0

-- The cell holds a whole number that is not negative.
abbrev pub IsCount : Option CountCell → Type 0
IsCount c = (n : ℕ) × (c ≡ some (integral (pos n)))

-- The rows parse, their times rise from `bound` on, and each lies more than a second before the year 10000.
abbrev pub IsWellFormed : Option ℕ → List Row → Type 0
IsWellFormed bound [] = Unit {0}
IsWellFormed none (r ∷ rs) =
    (t : ℕ) × (r.datetime ≡ some (aware t))
    × All IsCount r.counts
    × (t + second < datetime_end)
    × IsWellFormed (some t) rs
IsWellFormed (some b) (r ∷ rs) =
    (t : ℕ) × (r.datetime ≡ some (aware t))
    × All IsCount r.counts
    × (b < t)
    × (t + second < datetime_end)
    × IsWellFormed (some t) rs

-- The rows load, and a row gives a point.
abbrev Loads : ℕ → List Row → ℕ → Option ℕ → Option ℕ → Type 0
Loads classes rows line current last =
    (points : List ScriptPoint) × (load_rows classes rows line current last ≡ ok points)
    × (rows ≢ [] → points ≢ [])
