-- ===== src/LoopHistory.antt =====
-- system-showcase/app/loop_history_store.py: `LoopHistoryStore`, a bounded history of controller loops for
-- each scaler, in a JSON file.
pub mod Bounds
pub mod Repeats
mod Tests
use predictive_autoscaling_k.Common.{
  Bool, List, Option, String, [], drop, false, if◌then◌else◌, length, ltb, none, not, some,
  string_Eq, true, ℕ, ◌&&◌, ◌++◌, ◌-◌, ◌==◌, ◌||◌, ◌∷◌,
}
use predictive_autoscaling_k.Common.Dict.{Dict, insert, lookup}

-- A loop as the store reads it: `loopKey` as it is, and stripped; `minuteBucket` stripped; and the whole
-- dict, for the comparison of two loops.
pub record LoopRecord : Type 0 where
  pub loop_key : String
  pub stripped_key : String
  pub minute_bucket : String
  pub body : String

pub record ScalerPayload : Type 0 where
  pub pod_loops : List LoopRecord
  pub node_loops : List LoopRecord

-- The history file: not there, not JSON or without a dict of scalers, or the scalers as
-- `_read_payload` normalizes them.
pub data HistoryFile : Type 0 where
  missing malformed : HistoryFile
  scalers : Dict String ScalerPayload → HistoryFile

-- `items[-1]`
unfoldable pub last_of : List LoopRecord → Option LoopRecord
last_of [] = none
last_of (x ∷ []) = some x
last_of (x ∷ y ∷ xs) = last_of (y ∷ xs)

-- `items[-1] = loop_record`
unfoldable pub replace_last : List LoopRecord → LoopRecord → List LoopRecord
replace_last [] loop_record = []
replace_last (x ∷ []) loop_record = loop_record ∷ []
replace_last (x ∷ y ∷ xs) loop_record = x ∷ replace_last (y ∷ xs) loop_record

-- `items.append(loop_record)`, and the oldest items beyond the limit are deleted.
unfoldable pub append_bounded : ℕ → List LoopRecord → LoopRecord → List LoopRecord
append_bounded limit items loop_record =
    let longer = items ++ loop_record ∷ [] in
    if ltb limit (length longer) then drop (length longer - limit) longer else longer

-- The part of `_append_if_new` after the tests of the record itself, by the last item.
unfoldable pub append_after :
    ℕ → List LoopRecord → LoopRecord → Option LoopRecord → List LoopRecord × Bool
unfolding append_bounded replace_last
append_after limit items loop_record none = (append_bounded limit items loop_record, true)
append_after limit items loop_record (some last_item) =
    if last_item.loop_key == loop_record.stripped_key
    then (items, false)
    else if not (loop_record.minute_bucket == "")
        && loop_record.minute_bucket == last_item.minute_bucket
    then (if last_item.body == loop_record.body
        then (items, false)
        else (replace_last items loop_record, true))
    else (append_bounded limit items loop_record, true)

unfoldable pub append_if_new : ℕ → List LoopRecord → Option LoopRecord → List LoopRecord × Bool
unfolding append_after last_of
append_if_new limit items none = (items, false)
append_if_new limit items (some loop_record) =
    if loop_record.stripped_key == ""
    then (items, false)
    else append_after limit items loop_record (last_of items)

abbrev pub read_payload : HistoryFile → Dict String ScalerPayload
read_payload missing = []
read_payload malformed = []
read_payload (scalers payload) = payload

-- `payload.setdefault("scalers", {}).setdefault(scaler_key, …)`, read.
unfoldable pub scaler_payload_of : String → Dict String ScalerPayload → ScalerPayload
scaler_payload_of scaler_key payload = elim (lookup scaler_key payload) [
  | none ↦ record { pod_loops = []; node_loops = [] }
  | some scaler_payload ↦ scaler_payload
]

unfoldable pub get_snapshot : String → HistoryFile → ScalerPayload
unfolding scaler_payload_of
get_snapshot scaler_key file = scaler_payload_of scaler_key (read_payload file)

-- The file after the call, the scaler's lists, and `changed`.
unfoldable pub sync_latest :
    ℕ
    → String
    → Option LoopRecord
    → Option LoopRecord
    → HistoryFile
    → HistoryFile × ScalerPayload × Bool
unfolding append_if_new scaler_payload_of
sync_latest limit scaler_key pod_loop node_loop file =
    let payload = read_payload file in
    let scaler_payload = scaler_payload_of scaler_key payload in
    let (pods, pods_changed) = append_if_new limit scaler_payload.pod_loops pod_loop in
    let (nodes, nodes_changed) = append_if_new limit scaler_payload.node_loops node_loop in
    let synced : ScalerPayload = record { pod_loops = pods; node_loops = nodes } in
    let changed = pods_changed || nodes_changed in
    (if changed then scalers (insert scaler_key synced payload) else file, synced, changed)
