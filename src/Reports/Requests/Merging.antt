-- ===== src/Reports/Requests/Merging.antt =====
-- What the merged report holds of a key.
use predictive_autoscaling_k.Common.{
  List, Option, String, [], arith, if◌then◌else◌, none, some, sum_by, ℕ, ◌+◌, ◌∷◌, ◌≡◌, ◌≤◌,
}
use predictive_autoscaling_k.Common.Dict.{Dict}
use predictive_autoscaling_k.Reports.Requests.{
  Key, ReportRow, key_eq, merge_cells, merge_files, merge_request_reports, merge_rows,
}
use predictive_autoscaling_k.Reports.Requests.Sorting.{
  entries_of, entries_of-add_at, sorted_items-totals, total_of, total_of-add_at,
}
use predictive_autoscaling_k.Script.{second}

-- A whole row's count, where it is of this key.
abbrev pub cells_of : Key → Option ℕ → Option String → Option ℕ → ℕ
cells_of k none _ _ = 0
cells_of k (some _) none _ = 0
cells_of k (some _) (some _) none = 0
cells_of k (some second) (some url) (some count) = if key_eq (second, url) k then count else 0

abbrev pub rows_of : Key → List ReportRow → ℕ
rows_of k = sum_by (λ r. cells_of k r.second r.url r.count)

abbrev pub files_of : Key → List (Option (List ReportRow)) → ℕ
files_of k [] = 0
files_of k (none ∷ files) = files_of k files
files_of k (some rows ∷ files) = rows_of k rows + files_of k files

merge_cells-totals :
    (k : Key) (second : Option ℕ) (url : Option String) (count : Option ℕ) (d : Dict Key ℕ)
    → entries_of k d ≤ 1
    → (total_of k (merge_cells second url count d) ≡ total_of k d + cells_of k second url count)
      × (entries_of k (merge_cells second url count d) ≤ 1)
merge_cells-totals k none url count d h = (omega arith, h)
merge_cells-totals k (some s) none count d h = (omega arith, h)
merge_cells-totals k (some s) (some u) none d h = (omega arith, h)
merge_cells-totals k (some s) (some u) (some n) d h =
    (total_of-add_at k (s, u) n d, ground (arith, entries_of-add_at k (s, u) n d))

merge_rows-totals :
    (k : Key) (rows : List ReportRow) (d : Dict Key ℕ)
    → entries_of k d ≤ 1
    → (total_of k (merge_rows rows d) ≡ total_of k d + rows_of k rows)
      × (entries_of k (merge_rows rows d) ≤ 1)
unfolding merge_rows
merge_rows-totals k [] d h = (omega arith, h)
merge_rows-totals k (r ∷ rows) d h =
    let one = merge_cells-totals k r.second r.url r.count d h in
    let more = merge_rows-totals k rows (merge_cells r.second r.url r.count d) one.1 in
    (omega (arith, one.0, more.0), more.1)

merge_files-totals :
    (k : Key) (files : List (Option (List ReportRow))) (d : Dict Key ℕ)
    → entries_of k d ≤ 1
    → (total_of k (merge_files files d) ≡ total_of k d + files_of k files)
      × (entries_of k (merge_files files d) ≤ 1)
unfolding merge_files
merge_files-totals k [] d h = (omega arith, h)
merge_files-totals k (none ∷ files) d h = merge_files-totals k files d h
merge_files-totals k (some rows ∷ files) d h =
    let one = merge_rows-totals k rows d h in
    let more = merge_files-totals k files (merge_rows rows d) one.1 in
    (omega (arith, one.0, more.0), more.1)

-- The merged report has one row at most for a second and a URL, and its count is the sum of the counts
-- in all whole rows of all the workers' files that are there.
pub merge_request_reports-total_of :
    (k : Key) (files : List (Option (List ReportRow)))
    → (total_of k (merge_request_reports files) ≡ files_of k files)
      × (entries_of k (merge_request_reports files) ≤ 1)
unfolding merge_request_reports total_of entries_of
merge_request_reports-total_of k files =
    let merged = merge_files-totals k files [] (omega arith) in
    let sorts = sorted_items-totals k (merge_files files []) in
    (omega (arith, sorts.0, merged.0), omega (arith, sorts.1, merged.1))
