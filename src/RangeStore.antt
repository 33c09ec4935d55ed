-- ===== src/RangeStore.antt =====
-- system-showcase/app/script_range_store.py: ScriptRangeStore, which reads a window of a CSV script by an index
-- of byte offsets. A time is a number of microseconds; a line is given by its length in bytes and by what
-- `_parse_line` makes of it.
pub mod Bisect
pub mod Window
pub mod Index
pub mod Refinement
mod Tests
use predictive_autoscaling_k.Common.{
  Bool, List, Option, [], false, get_elem?, if◌then◌else◌, leb, ltb, map, max, nat_Eq, none,
  range_from, some, suc, true, zero, ℕ, ◌%◌, ◌*◌, ◌++◌, ◌+◌, ◌-◌, ◌/◌, ◌==◌, ◌∷◌,
}
use predictive_autoscaling_k.Common.Dict.{Dict, insert, lookup}
use predictive_autoscaling_k.Common.Int.{pos, ℤ}
use predictive_autoscaling_k.RangeStore.Bisect.{bisect_right}
use predictive_autoscaling_k.Script.Timeline.{requests_of}

-- The length, and the reading.
abbrev pub Line : Type 0
Line = ℕ × Option (ℕ × ℤ)

-- The file: the length of its first line, and the other lines.
pub record CsvFile : Type 0 where
  pub header_size : ℕ
  pub lines : List Line

-- `__init__` and what `_ensure_index` fills in.
pub record ScriptRangeStore : Type 0 where
  pub index_stride : ℕ
  pub index_ready : Bool
  pub header_offset : ℕ
  pub index : List (ℕ × ℕ)
  pub first_timestamp : Option ℕ
  pub last_timestamp : Option ℕ

unfoldable pub new_store : ℕ → ScriptRangeStore
new_store stride = record {
  index_stride = max stride 1;
  index_ready = false;
  header_offset = 0;
  index = [];
  first_timestamp = none;
  last_timestamp = none;
}

abbrev or_first : Option ℕ → ℕ → Option ℕ
or_first none timestamp = some timestamp
or_first (some t) timestamp = some t

-- A round of the loop of `_ensure_index`.
unfoldable pub index_line : ScriptRangeStore → ℕ → ℕ → Option (ℕ × ℤ) → ScriptRangeStore
index_line store current_offset row_index none = store
index_line store current_offset row_index (some (timestamp, requests)) = record store {
  first_timestamp = or_first first_timestamp timestamp;
  last_timestamp = some timestamp;
  index =
      if row_index % index_stride == 0 then index ++ ((timestamp, current_offset) ∷ []) else index;
}
  where
    open store use {first_timestamp, index, index_stride}

-- The loop.
unfoldable pub index_lines : ScriptRangeStore → ℕ → ℕ → List Line → ScriptRangeStore
unfolding index_line
index_lines store current_offset row_index [] = store
index_lines store current_offset row_index (line ∷ lines) =
    index_lines (index_line store current_offset row_index line.1) (current_offset + line.0)
      (suc row_index) lines

unfoldable pub ensure_index : ScriptRangeStore → CsvFile → ScriptRangeStore
unfolding index_lines
ensure_index store file =
    if store.index_ready
    then store
    else record (index_lines (record store { index = []; header_offset = file.header_size })
        file.header_size 0 file.lines) { index_ready = true }

-- `handle.seek(offset)` on the lines: those from there on, if a line begins there.
unfoldable pub seek : ℕ → List Line → Option (List Line)
seek offset [] = if offset == 0 then some [] else none
seek offset (line ∷ lines) =
    let rest = seek (offset - line.0) lines in
    if offset == 0 then some (line ∷ lines) else if leb line.0 offset then rest else none

-- The loop of `_slice_filled_series`, with `continue` and `break`.
unfoldable pub collect : ℕ → ℕ → List Line → Dict ℕ ℤ → Dict ℕ ℤ
collect start end [] points_by_offset = points_by_offset
collect start end ((size, none) ∷ lines) points_by_offset = collect start end lines points_by_offset
collect start end ((size, some (timestamp, n)) ∷ lines) points_by_offset =
    elim (ltb timestamp start) [
      | true ↦ collect start end lines points_by_offset
      | false ↦ elim (leb end timestamp) [
        | true ↦ points_by_offset
        | false ↦
            collect start end lines (insert ((timestamp - start) / 1000000) n points_by_offset)
      ]
    ]

pub record Point : Type 0 where
  pub world_cup_time : ℕ
  pub real_time : ℕ
  pub requests : ℤ

abbrev pub requests_at : Dict ℕ ℤ → ℕ → ℤ
requests_at points_by_offset second_offset = elim (lookup second_offset points_by_offset) [
  | none ↦ pos 0
  | some n ↦ n
]

abbrev pub point_of : ℕ → ℕ → (ℕ → ℤ) → ℕ → Point
point_of world_cup_start real_start requests_of k = record {
  world_cup_time = world_cup_start + k * 1000000;
  real_time = real_start + k * 1000000;
  requests = requests_of k;
}

-- `self._index[index_position][1]`, after `bisect_right(…) - 1`.
abbrev pub offset_at : ScriptRangeStore → ℕ → ℕ
offset_at store zero = store.header_offset
offset_at store (suc index_position) = elim (get_elem? store.index index_position) [
  | none ↦ store.header_offset
  | some entry ↦ entry.1
]

-- `_starting_offset`. The test for an empty index gives what the search gives there.
unfoldable pub starting_offset : ScriptRangeStore → ℕ → ℕ
starting_offset store world_cup_start =
    offset_at store (bisect_right (map (λ entry. entry.0) store.index) world_cup_start)

-- `handle.seek(offset)` on the file.
unfoldable pub read_from : CsvFile → ℕ → Option (List Line)
unfolding seek
read_from file offset =
    if leb file.header_size offset then seek (offset - file.header_size) file.lines else none

-- The points of the lines that are read, one for each second.
unfoldable pub points_of : ℕ → ℕ → ℕ → List Line → List Point
unfolding collect
points_of world_cup_start real_start duration_seconds lines =
    let world_cup_end = world_cup_start + duration_seconds * 1000000 in
    map
      (point_of world_cup_start real_start
        (requests_at (collect world_cup_start world_cup_end lines [])))
      (range_from 0 duration_seconds)

-- `_slice_filled_series`; no result where the offset is inside of a line.
unfoldable pub slice_filled_series : ScriptRangeStore → CsvFile → ℕ → ℕ → ℕ → Option (List Point)
unfolding read_from points_of
slice_filled_series store file world_cup_start real_start duration_seconds =
    elim (read_from file (starting_offset store world_cup_start)) [
      | none ↦ none
      | some lines ↦ some (points_of world_cup_start real_start duration_seconds lines)
    ]
