-- ===== src/Reports/Incidents.antt =====
-- `IncidentReportWriter`: connection resets, kept in memory and appended to a file from where the last
-- flush stopped. A timestamp is its microseconds.
use native.Mathlib.Nat.{le_refl}
use predictive_autoscaling_k.Common.{
  Bool-cases, List, String, [], ap, append-nil, append_assoc, arith, drop, if◌then◌else◌, inl, inr,
  leb, length, length-append, refl, suc, sym, take, zero, ℕ, ◌++◌, ◌∙◌, ◌∷◌, ◌≡◌, ◌≤◌,
}

pub record Incident : Type 0 where
  pub timestamp : ℕ
  pub second_bucket : ℕ
  pub url : String
  pub incident_type : String
  pub message : String

pub record IncidentReportWriter : Type 0 where
  pub rows : List Incident
  pub flushed_count : ℕ
  pub file : List Incident

unfoldable pub reset : IncidentReportWriter
reset = record { rows = []; flushed_count = 0; file = [] }

unfoldable pub record_incident : Incident → IncidentReportWriter → IncidentReportWriter
record_incident i w = record w { rows = w.rows ++ i ∷ [] }

unfoldable pub flush : IncidentReportWriter → IncidentReportWriter
flush w =
    if leb (length w.rows) w.flushed_count
    then w
    else record w { file = w.file ++ drop w.flushed_count w.rows; flushed_count = length w.rows }

pub data IncidentOp : Type 0 where
  records : Incident → IncidentOp
  flushes : IncidentOp

unfoldable pub run : List IncidentOp → IncidentReportWriter → IncidentReportWriter
unfolding record_incident flush
run [] w = w
run (records i ∷ ops) w = run ops (record_incident i w)
run (flushes ∷ ops) w = run ops (flush w)

-- The incidents that a run records, in order.
abbrev pub incidents_of : List IncidentOp → List Incident
incidents_of [] = []
incidents_of (records i ∷ ops) = i ∷ incidents_of ops
incidents_of (flushes ∷ ops) = incidents_of ops

-- The file holds the rows up to the last flush.
record IsInOrder (w : IncidentReportWriter) : Type 0 where
  within : w.flushed_count ≤ length w.rows
  written : w.file ≡ take w.flushed_count w.rows

take-append {ℓ} :
    {A : Type ℓ} (n : ℕ) (xs ys : List A) → n ≤ length xs → take n (xs ++ ys) ≡ take n xs
take-append zero xs ys h = refl
take-append (suc n) [] ys h = absurd (omega arith)
take-append (suc n) (x ∷ xs) ys h = ap (λ l. x ∷ l) (take-append n xs ys (omega arith))

take-append-drop {ℓ} : {A : Type ℓ} (n : ℕ) (xs : List A) → take n xs ++ drop n xs ≡ xs
take-append-drop zero xs = refl
take-append-drop (suc n) [] = refl
take-append-drop (suc n) (x ∷ xs) = ap (λ l. x ∷ l) (take-append-drop n xs)

take_all {ℓ} : {A : Type ℓ} (n : ℕ) (xs : List A) → length xs ≤ n → take n xs ≡ xs
take_all zero [] h = refl
take_all zero (x ∷ xs) h = absurd (omega arith)
take_all (suc n) [] h = refl
take_all (suc n) (x ∷ xs) h = ap (λ l. x ∷ l) (take_all n xs (omega arith))

record_incident-IsInOrder :
    (i : Incident) (w : IncidentReportWriter) → IsInOrder w → IsInOrder (record_incident i w)
unfolding record_incident
record_incident-IsInOrder i w h = record {
  within = let l = h.within in omega (arith, length-append w.rows (i ∷ []));
  written = h.written ∙ sym (take-append w.flushed_count w.rows (i ∷ []) h.within);
}

flush-IsInOrder :
    (w : IncidentReportWriter) → IsInOrder w → IsInOrder (flush w) × ((flush w).file ≡ w.rows)
unfolding flush
flush-IsInOrder w h = elim (Bool-cases (leb (length w.rows) w.flushed_count)) [
  | inl e ↦
      let done : length w.rows ≤ w.flushed_count = ground arith in
      rw e (h, h.written ∙ take_all w.flushed_count w.rows done)
  | inr e ↦
      let all = take_all (length w.rows) w.rows (le_refl (length w.rows)) in
      let whole =
        ap (λ f. f ++ drop w.flushed_count w.rows) h.written
        ∙ take-append-drop w.flushed_count w.rows in
      rw e (record { within = le_refl (length w.rows); written = whole ∙ sym all }, whole)
]

run-IsInOrder :
    (ops : List IncidentOp) (w : IncidentReportWriter)
    → IsInOrder w
    → IsInOrder (run ops w) × ((run ops w).rows ≡ w.rows ++ incidents_of ops)
unfolding run record_incident
run-IsInOrder [] w h = (h, sym (append-nil w.rows))
run-IsInOrder (records i ∷ ops) w h =
    let r = run-IsInOrder ops (record_incident i w) (record_incident-IsInOrder i w h) in
    (r.0, r.1 ∙ append_assoc w.rows (i ∷ []) (incidents_of ops))
run-IsInOrder (flushes ∷ ops) w h =
    let r = run-IsInOrder ops (flush w) (flush-IsInOrder w h).0 in
    (r.0, r.1 ∙ ap (λ l. l ++ incidents_of ops) (flush-rows w))
  where
    flush-rows : (v : IncidentReportWriter) → (flush v).rows ≡ v.rows
    flush-rows v = ground arith

-- After a run that ends with a flush, whatever came before it, the incident file holds each recorded
-- incident once, in the order of recording.
pub flush-run : (ops : List IncidentOp) → (flush (run ops reset)).file ≡ incidents_of ops
unfolding reset
flush-run ops =
    let r = run-IsInOrder ops reset (record { within = omega arith; written = refl }) in
    (flush-IsInOrder (run ops reset) r.0).1 ∙ r.1
