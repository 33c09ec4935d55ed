-- ===== src/Script/Timeline.antt =====
-- `load_script_points`: the order and the requests of the points of a script that loads.
use predictive_autoscaling_k.Common.{
  All, All-append, Bool, Bool-cases, List, Option, [], ap, ap₂, arith, dec_lt, false, inl, inr,
  length, length-replicate, ltb, none, not, refl, replicate, some, suc, sum, sum_by, sum_by-append,
  true, zero, ℕ, ◌++◌, ◌+◌, ◌-◌, ◌<◌, ◌∙◌, ◌∷◌, ◌≡◌, ◌≢◌, ◌≤◌,
}
use predictive_autoscaling_k.Common.Int.{negsuc, pos}
use predictive_autoscaling_k.Script.{
  CountCell, CsvFile, Loaded, Row, ScriptError, ScriptPoint, datetime_end, duplicate_timestamp, err,
  file_not_found, fill_gap, fractional, idle_point, integral, is_earlier, is_same, load_rows,
  load_script_points, missing_columns, not_number, not_sorted, ok, or_else, overflow, parse_counts,
  parse_request_count, parse_timestamp, raise_if, require_points, second, ◌>>=◌,
}

-- Every point comes after the time `t`, and each one after the one before.
abbrev pub Ascends : Option ℕ → List ScriptPoint → Type 0
Ascends bound [] = Unit {0}
Ascends none (p ∷ ps) = Ascends (some p.timestamp) ps
Ascends (some t) (p ∷ ps) = (t < p.timestamp) × Ascends (some p.timestamp) ps

-- The requests that the rows ask for; a cell that does not parse counts as nothing.
abbrev pub cell_requests : Option CountCell → ℕ
cell_requests (some (integral (pos n))) = n
cell_requests (some (integral (negsuc n))) = 0
cell_requests (some fractional) = 0
cell_requests (some not_number) = 0
cell_requests none = 0

abbrev pub requests_of : List Row → ℕ
requests_of = sum_by (λ r. sum_by cell_requests r.counts)

abbrev pub requests_in : List ScriptPoint → ℕ
requests_in = sum_by (λ p. p.requests)

-- The planner's counts of a point add up to its requests, one count for each class.
pub record IsConsistent (classes : ℕ) (p : ScriptPoint) : Type 0 where
  pub adds_up : sum p.request_class_counts ≡ p.requests
  pub complete : length p.request_class_counts ≡ classes

-- When a chain loads, so do its first step and the rest of it.
pub >>=-ok {ℓ κ} :
    {Value : Type ℓ} {Result : Type κ} (first : Loaded Value) (rest : Value → Loaded Result)
    {result : Result}
    → (first >>= rest) ≡ ok result
    → (value : Value) × (first ≡ ok value) × (rest value ≡ ok result)
>>=-ok (err error) rest loads = cc
>>=-ok (ok value) rest loads = (value, refl, loads)

pub raise_if-eq-ok : (b : Bool) (e : ScriptError) {u : Unit {0}} → raise_if b e ≡ ok u → b ≡ false
raise_if-eq-ok true e h = cc
raise_if-eq-ok false e h = refl

-- How a row's parse, its two order tests and the rest of the rows come together.
pub record RowLoads (classes : ℕ) (row : Row) (rows : List Row) (line : ℕ) (current last : Option ℕ)
    (points : List ScriptPoint) : Type 0 where
  pub timestamp : ℕ
  pub counts : List ℕ
  pub rest : List ScriptPoint
  pub stamp_parses : parse_timestamp row.datetime line ≡ ok timestamp
  pub counts_parse : parse_counts row.counts line ≡ ok counts
  pub not_before : is_earlier timestamp last ≡ false
  pub not_again : is_same timestamp last ≡ false
  pub rest_loads :
      load_rows classes rows (suc line) (some (timestamp + second)) (some timestamp) ≡ ok rest
  pub splits :
      fill_gap classes (timestamp - or_else current timestamp) (or_else current timestamp) timestamp
        ++ record { timestamp = timestamp; requests = sum counts; request_class_counts = counts }
          ∷ rest
      ≡ points

pub load_rows-RowLoads :
    (classes : ℕ) (row : Row) (rows : List Row) (line : ℕ) (current last : Option ℕ)
    {points : List ScriptPoint}
    → load_rows classes (row ∷ rows) line current last ≡ ok points
    → RowLoads classes row rows line current last points
unfolding load_rows
load_rows-RowLoads classes row rows line current last h =
    let (t, et, h1) = >>=-ok (parse_timestamp row.datetime line) _ h in
    let (ns, en, h2) = >>=-ok (parse_counts row.counts line) _ h1 in
    let (u, eu, h3) = >>=-ok (raise_if (is_earlier t last) (not_sorted line)) _ h2 in
    let (v, ev, h4) = >>=-ok (raise_if (is_same t last) (duplicate_timestamp line)) _ h3 in
    let (w, ew, h5) = >>=-ok (raise_if (not (ltb (t + second) datetime_end)) overflow) _ h4 in
    let (rest, er, h6) =
      >>=-ok (load_rows classes rows (suc line) (some (t + second)) (some t)) _ h5 in
    record {
      timestamp = t;
      counts = ns;
      rest = rest;
      stamp_parses = et;
      counts_parse = en;
      not_before = raise_if-eq-ok _ _ eu;
      not_again = raise_if-eq-ok _ _ ev;
      rest_loads = er;
      splits = cc;
    }

-- `current_time` lies past the last row.
abbrev Follows : Option ℕ → Option ℕ → Type 0
Follows none none = Unit {0}
Follows none (some c) = ⊥
Follows (some l) none = ⊥
Follows (some l) (some c) = l < c

pub fill_gap_done : (classes fuel c t : ℕ) → t ≤ c → fill_gap classes fuel c t ≡ []
unfolding fill_gap
fill_gap_done classes zero c t h = refl
fill_gap_done classes (suc fuel) c t h = ground arith

fill_gap-Ascends :
    (classes fuel b c t : ℕ) (p : ScriptPoint) (ps : List ScriptPoint)
    → b < c
    → b < t
    → p.timestamp ≡ t
    → Ascends (some t) ps
    → Ascends (some b) (fill_gap classes fuel c t ++ p ∷ ps)
unfolding fill_gap
fill_gap-Ascends classes zero b c t p ps hc ht e h = (omega arith, rw e h)
fill_gap-Ascends classes (suc fuel) b c t p ps hc ht e h = elim (dec_lt c t) [
  | yes below ↦
      ground (arith, fill_gap-Ascends classes fuel c (c + second) t p ps (omega arith) below e h)
  | no above ↦ ground arith
]

assemble-Ascends :
    (classes : ℕ) (row : Row) (rows : List Row) (line : ℕ) (current last : Option ℕ)
    (points : List ScriptPoint)
    → Follows last current
    → (l : RowLoads classes row rows line current last points) → Ascends (some l.timestamp) l.rest
    → Ascends last points
assemble-Ascends classes row rows line none none points f l h =
    rw
      (
        ← l.splits,
        fill_gap_done classes (l.timestamp - l.timestamp) l.timestamp l.timestamp (omega arith),
      )
      h
assemble-Ascends classes row rows line none (some b) points f l h = elim f [ ]
assemble-Ascends classes row rows line (some c) none points f l h = elim f [ ]
assemble-Ascends classes row rows line (some c) (some b) points f l h = rw (← l.splits) (
    fill_gap-Ascends classes (l.timestamp - c) b c l.timestamp _ l.rest f
      (ground (arith, l.not_before, l.not_again)) refl h)

pub load_rows-Ascends :
    (classes : ℕ) (rows : List Row) (line : ℕ) (current last : Option ℕ) (points : List ScriptPoint)
    → Follows last current
    → load_rows classes rows line current last ≡ ok points
    → Ascends last points
unfolding load_rows
load_rows-Ascends classes [] line current last points f h = let e : points ≡ [] = cc in rw e tt
load_rows-Ascends classes (row ∷ rows) line current last points f h =
    let l = load_rows-RowLoads classes row rows line current last h in
    assemble-Ascends classes row rows line current last points f l (
      load_rows-Ascends classes rows (suc line) (some (l.timestamp + second)) (some l.timestamp)
        l.rest (omega arith) l.rest_loads)

fill_gap-requests_in : (classes fuel c t : ℕ) → requests_in (fill_gap classes fuel c t) ≡ 0
unfolding fill_gap
fill_gap-requests_in classes zero c t = refl
fill_gap-requests_in classes (suc fuel) c t =
    ground (arith, fill_gap-requests_in classes fuel (c + second) t)

parse_request_count-requests :
    (c : Option CountCell) (line n : ℕ) → parse_request_count c line ≡ ok n → n ≡ cell_requests c
unfolding parse_request_count
parse_request_count-requests none line n h = cc
parse_request_count-requests (some not_number) line n h = cc
parse_request_count-requests (some fractional) line n h = cc
parse_request_count-requests (some (integral (pos m))) line n h = cc
parse_request_count-requests (some (integral (negsuc m))) line n h = cc

pub parse_counts-requests :
    (cs : List (Option CountCell)) (line : ℕ) (ns : List ℕ)
    → parse_counts cs line ≡ ok ns
    → (sum ns ≡ sum_by cell_requests cs) × (length ns ≡ length cs)
unfolding parse_counts
parse_counts-requests [] line ns h = let e : ns ≡ [] = cc in rw (e) (refl, refl)
parse_counts-requests (c ∷ cs) line ns h =
    let (n, en, h1) = >>=-ok (parse_request_count c line) _ h in
    let (ms, em, h2) = >>=-ok (parse_counts cs line) _ h1 in
    let e : ns ≡ n ∷ ms = cc in
    let ih = parse_counts-requests cs line ms em in
    rw e (ap₂ ◌+◌ (parse_request_count-requests c line n en) ih.0, ap suc ih.1)

pub load_rows-requests_in :
    (classes : ℕ) (rows : List Row) (line : ℕ) (current last : Option ℕ) (points : List ScriptPoint)
    → load_rows classes rows line current last ≡ ok points
    → requests_in points ≡ requests_of rows
unfolding load_rows
load_rows-requests_in classes [] line current last points h = let e : points ≡ [] = cc in rw e refl
load_rows-requests_in classes (row ∷ rows) line current last points h =
    let l = load_rows-RowLoads classes row rows line current last h in
    let c = or_else current l.timestamp in
    let gap = fill_gap classes (l.timestamp - c) c l.timestamp in
    let point : ScriptPoint = record {
      timestamp = l.timestamp;
      requests = sum l.counts;
      request_class_counts = l.counts;
    } in
    rw (← l.splits) (
      omega (
        arith,
        sum_by-append (λ (p : ScriptPoint). p.requests) gap (point ∷ l.rest),
        fill_gap-requests_in classes (l.timestamp - c) c l.timestamp,
        (parse_counts-requests row.counts line l.counts l.counts_parse).0,
        load_rows-requests_in classes rows (suc line) (some (l.timestamp + second))
            (some l.timestamp) l.rest l.rest_loads,
      ))

idle-IsConsistent : (classes t : ℕ) → IsConsistent classes (idle_point classes t)
idle-IsConsistent classes t = record {
  adds_up = zeros classes;
  complete = length-replicate classes 0;
}
  where
    zeros : (n : ℕ) → sum (replicate n 0) ≡ 0
    zeros zero = refl
    zeros (suc n) = omega (arith, zeros n)

fill_gap-IsConsistent :
    (classes fuel c t : ℕ) → All (IsConsistent classes) (fill_gap classes fuel c t)
unfolding fill_gap
fill_gap-IsConsistent classes zero c t = tt
fill_gap-IsConsistent classes (suc fuel) c t = elim (Bool-cases (ltb c t)) [
  | inl e ↦ rw e (idle-IsConsistent classes c, fill_gap-IsConsistent classes fuel (c + second) t)
  | inr e ↦ rw e tt
]

load_rows-IsConsistent :
    (classes : ℕ) (rows : List Row) (line : ℕ) (current last : Option ℕ) (points : List ScriptPoint)
    → All (λ r. length r.counts ≡ classes) rows
    → load_rows classes rows line current last ≡ ok points
    → All (IsConsistent classes) points
unfolding load_rows
load_rows-IsConsistent classes [] line current last points w h = let e : points ≡ [] = cc in rw e tt
load_rows-IsConsistent classes (row ∷ rows) line current last points w h =
    let l = load_rows-RowLoads classes row rows line current last h in
    let c = or_else current l.timestamp in
    rw (← l.splits) (
      All-append (IsConsistent classes) (fill_gap classes (l.timestamp - c) c l.timestamp) _
        (fill_gap-IsConsistent classes (l.timestamp - c) c l.timestamp)
        (
          record {
            adds_up = refl;
            complete = (parse_counts-requests row.counts line l.counts l.counts_parse).1 ∙ w.0;
          },
          load_rows-IsConsistent classes rows (suc line) (some (l.timestamp + second))
              (some l.timestamp) l.rest w.1 l.rest_loads,
        ))

-- How a file that loads was read.
pub load_script_points-rows :
    (f : CsvFile) (classes : ℕ) (points : List ScriptPoint)
    → load_script_points f classes ≡ ok points
    → (load_rows classes f.rows 2 none none ≡ ok points) × (points ≢ [])
unfolding load_script_points
load_script_points-rows f classes points h =
    let (u, eu, h1) = >>=-ok (raise_if (not f.exists) file_not_found) _ h in
    let (v, ev, h2) = >>=-ok (raise_if (not f.has_columns) missing_columns) _ h1 in
    let (ps, ep, h3) = >>=-ok (load_rows classes f.rows 2 none none) _ h2 in
    required ps points ep h3
  where
    required :
        (ps qs : List ScriptPoint)
        → load_rows classes f.rows 2 none none ≡ ok ps
        → require_points ps ≡ ok qs
        → (load_rows classes f.rows 2 none none ≡ ok qs) × (qs ≢ [])
    required [] qs e k = cc
    required (p ∷ ps) qs e k = ground (arith, e, k)

-- A script that loads has a point, and its points stand in strictly rising order of time.
pub load_script_points-Ascends :
    (f : CsvFile) (classes : ℕ) (points : List ScriptPoint)
    → load_script_points f classes ≡ ok points
    → (points ≢ []) × Ascends none points
load_script_points-Ascends f classes points h =
    let (e, some_point) = load_script_points-rows f classes points h in
    (some_point, load_rows-Ascends classes f.rows 2 none none points tt e)

-- A script that loads keeps every request: its points ask for as many as the rows of the CSV.
pub load_script_points-requests_in :
    (f : CsvFile) (classes : ℕ) (points : List ScriptPoint)
    → load_script_points f classes ≡ ok points
    → requests_in points ≡ requests_of f.rows
load_script_points-requests_in f classes points h =
    load_rows-requests_in classes f.rows 2 none none points
      (load_script_points-rows f classes points h).0

-- When every row has one cell for each class, a script that loads has at each point one count for each
-- class, and these add up to the point's requests.
pub load_script_points-IsConsistent :
    (f : CsvFile) (classes : ℕ) (points : List ScriptPoint)
    → All (λ r. length r.counts ≡ classes) f.rows
    → load_script_points f classes ≡ ok points
    → All (IsConsistent classes) points
load_script_points-IsConsistent f classes points w h =
    load_rows-IsConsistent classes f.rows 2 none none points w
      (load_script_points-rows f classes points h).0
