-- ===== src/Reports/Requests.antt =====
-- `RequestReportWriter`: how many requests were started in a second for a URL, and `_merge_request_reports`
-- over the files of several workers.
pub mod Sorting
pub mod Flushing
pub mod Exact
pub mod Merging
use Prim.Native.Nat.{compare, Ordering}
use Prim.Native.String.{compare as compare_text}
use predictive_autoscaling_k.Common.{
  ==_iff, Bool, List, Option, String, [], false, if◌then◌else◌, leb, nat_Eq, none, not, pair_Eq,
  some, string_Eq, true, ℕ, ◌&&◌, ◌++◌, ◌+◌, ◌==◌, ◌||◌, ◌↔◌, ◌∷◌, ◌≡◌,
}
use predictive_autoscaling_k.Common.Dict.{Dict}

-- A second and a URL.
abbrev pub Key : Type 0
Key = ℕ × String

unfoldable pub key_eq : Key → Key → Bool
key_eq p q = p == q

pub key_eq_iff : (p q : Key) → (key_eq p q ≡ true) ↔ (p ≡ q)
unfolding key_eq
key_eq_iff p q = ==_iff p q

-- Python's order of such pairs: by the second, then by the text.
abbrev pub key_leb : Key → Key → Bool
key_leb p q = elim (compare p.0 q.0) [
  | Ordering.lt ↦ true
  | Ordering.gt ↦ false
  | Ordering.eq ↦ elim (compare_text p.1 q.1) [ Ordering.gt ↦ false | _ ↦ true ]
]

pub record RequestReportWriter : Type 0 where
  pub counts : Dict Key ℕ
  pub flushed_keys : List Key
  pub file : List (Key × ℕ)

unfoldable pub reset : RequestReportWriter
reset = record { counts = []; flushed_keys = []; file = [] }

-- `counts[key] += n` on a `defaultdict(int)`.
unfoldable pub add_at : Key → ℕ → Dict Key ℕ → Dict Key ℕ
unfolding key_eq
add_at k n [] = (k, n) ∷ []
add_at k n ((j, m) ∷ d) = if key_eq j k then (j, m + n) ∷ d else (j, m) ∷ add_at k n d

unfoldable pub record_request : ℕ → String → RequestReportWriter → RequestReportWriter
unfolding add_at
record_request second_bucket report_url w = record w {
  counts = add_at (second_bucket, report_url) 1 w.counts;
}

-- `sorted(counts.items())`
unfoldable pub insert_item : Key × ℕ → List (Key × ℕ) → List (Key × ℕ)
insert_item e [] = e ∷ []
insert_item e (f ∷ items) = if key_leb e.0 f.0 then e ∷ f ∷ items else f ∷ insert_item e items

unfoldable pub sorted_items : List (Key × ℕ) → List (Key × ℕ)
unfolding insert_item
sorted_items [] = []
sorted_items (e ∷ items) = insert_item e (sorted_items items)

unfoldable pub contains : Key → List Key → Bool
unfolding key_eq
contains k [] = false
contains k (j ∷ ks) = key_eq j k || contains k ks

-- The loop of `flush_closed` over the sorted items: the new rows, and the keys that are flushed after it.
unfoldable pub closed_rows : Bool → ℕ → List (Key × ℕ) → List Key → List (Key × ℕ) × List Key
unfolding contains
closed_rows final current_second [] flushed = ([], flushed)
closed_rows final current_second ((k, n) ∷ items) flushed =
    let skipped = closed_rows final current_second items flushed in
    let (rows, flushed') = closed_rows final current_second items (k ∷ flushed) in
    if contains k flushed
    then skipped
    else if not final && leb current_second k.0
    then skipped
    else ((k, n) ∷ rows, flushed')

unfoldable pub flush_closed : Bool → ℕ → RequestReportWriter → RequestReportWriter
unfolding sorted_items closed_rows
flush_closed final current_second w =
    let (rows, flushed) = closed_rows final current_second (sorted_items w.counts) w.flushed_keys in
    record w { flushed_keys = flushed; file = w.file ++ rows }

-- A row as `csv.DictReader` reads it back: a cell that is missing or empty is `none`.
pub record ReportRow : Type 0 where
  pub second : Option ℕ
  pub url : Option String
  pub count : Option ℕ

-- One worker's rows added to the counts; `_row_has_values` skips a row that is not whole.
abbrev pub merge_cells : Option ℕ → Option String → Option ℕ → Dict Key ℕ → Dict Key ℕ
merge_cells none url count d = d
merge_cells (some second) none count d = d
merge_cells (some second) (some url) none d = d
merge_cells (some second) (some url) (some count) d = add_at (second, url) count d

unfoldable pub merge_rows : List ReportRow → Dict Key ℕ → Dict Key ℕ
merge_rows [] d = d
merge_rows (r ∷ rows) d = merge_rows rows (merge_cells r.second r.url r.count d)

-- The loop over the workers' files; a file that is not there is skipped.
unfoldable pub merge_files : List (Option (List ReportRow)) → Dict Key ℕ → Dict Key ℕ
unfolding merge_rows
merge_files [] d = d
merge_files (none ∷ files) d = merge_files files d
merge_files (some rows ∷ files) d = merge_files files (merge_rows rows d)

unfoldable pub merge_request_reports : List (Option (List ReportRow)) → List (Key × ℕ)
unfolding merge_files sorted_items
merge_request_reports files = sorted_items (merge_files files [])
