-- ===== src/LoopHistory/Bounds.antt =====
-- `LoopHistoryStore`: the lengths of the lists.
use predictive_autoscaling_k.Common.{
  All, Bool, Bool-cases, List, Option, String, [], ap, arith, false, if◌then◌else◌, inl, inr,
  length, length-drop, none, refl, some, string_Eq, suc, true, ℕ, ◌++◌, ◌-◌, ◌==◌, ◌||◌, ◌∷◌, ◌≡◌,
  ◌≤◌,
}
use predictive_autoscaling_k.Common.Dict.{Dict, insert}
use predictive_autoscaling_k.LoopHistory.{
  HistoryFile, LoopRecord, ScalerPayload, append_after, append_bounded, append_if_new, last_of,
  read_payload, replace_last, scaler_payload_of, scalers, sync_latest,
}

length-replace_last :
    (items : List LoopRecord) (r : LoopRecord) → length (replace_last items r) ≡ length items
unfolding replace_last
length-replace_last [] r = refl
length-replace_last (x ∷ []) r = refl
length-replace_last (x ∷ y ∷ xs) r = ap suc (length-replace_last (y ∷ xs) r)

length-append_bounded :
    (limit : ℕ) (items : List LoopRecord) (r : LoopRecord)
    → length (append_bounded limit items r) ≤ limit
unfolding append_bounded
length-append_bounded limit items r =
    ground (arith, length-drop (length (items ++ r ∷ []) - limit) (items ++ r ∷ []))

append_after-length :
    (limit : ℕ) (items : List LoopRecord) (r : LoopRecord) (l : Option LoopRecord)
    → length items ≤ limit
    → length (append_after limit items r l).0 ≤ limit
unfolding append_after
append_after-length limit items r none h = length-append_bounded limit items r
append_after-length limit items r (some l) h =
    ground (arith, length-append_bounded limit items r, length-replace_last items r)

append_if_new-length :
    (limit : ℕ) (items : List LoopRecord) (r : Option LoopRecord)
    → length items ≤ limit
    → length (append_if_new limit items r).0 ≤ limit
unfolding append_if_new
append_if_new-length limit items none h = h
append_if_new-length limit items (some r) h =
    ground (arith, append_after-length limit items r (last_of items) h)

-- Every list of every scaler is within the limit.
abbrev pub IsWithinLimit : ℕ → ScalerPayload → Type 0
IsWithinLimit limit p = (length p.pod_loops ≤ limit) × (length p.node_loops ≤ limit)

abbrev pub IsBounded : ℕ → HistoryFile → Type 0
IsBounded limit file = All (λ e. IsWithinLimit limit e.1) (read_payload file)

lookup-IsWithinLimit :
    (limit : ℕ) (k : String) (d : Dict String ScalerPayload)
    → All (λ e. IsWithinLimit limit e.1) d
    → IsWithinLimit limit (scaler_payload_of k d)
unfolding scaler_payload_of
lookup-IsWithinLimit limit k [] h = (omega arith, omega arith)
lookup-IsWithinLimit limit k ((j, p) ∷ d) h = elim (Bool-cases (j == k)) [
  | inl same ↦ rw (same, scaler_payload_of) h.0
  | inr other ↦ rw (other, scaler_payload_of) (lookup-IsWithinLimit limit k d h.1)
]

insert-IsWithinLimit :
    (limit : ℕ) (k : String) (p : ScalerPayload) (d : Dict String ScalerPayload)
    → IsWithinLimit limit p
    → All (λ e. IsWithinLimit limit e.1) d
    → All (λ e. IsWithinLimit limit e.1) (insert k p d)
insert-IsWithinLimit limit k p [] hp h = (hp, tt)
insert-IsWithinLimit limit k p ((j, q) ∷ d) hp h = elim (Bool-cases (j == k)) [
  | inl same ↦ rw same (hp, h.1)
  | inr other ↦ rw other (h.0, insert-IsWithinLimit limit k p d hp h.1)
]

changed-IsBounded :
    (limit : ℕ) (changed : Bool) (k : String) (p : ScalerPayload) (file : HistoryFile)
    → IsWithinLimit limit p
    → IsBounded limit file
    → IsBounded limit (if changed then scalers (insert k p (read_payload file)) else file)
changed-IsBounded limit true k p file hp h = insert-IsWithinLimit limit k p (read_payload file) hp h
changed-IsBounded limit false k p file hp h = h

-- When every list in the file is within the limit, it is so after a synchronization, whichever loops are
-- new, and so are the two lists that are returned.
pub sync_latest-IsBounded :
    (limit : ℕ) (k : String) (pod node : Option LoopRecord) (file : HistoryFile)
    → IsBounded limit file
    → IsBounded limit (sync_latest limit k pod node file).0
      × IsWithinLimit limit (sync_latest limit k pod node file).1
unfolding sync_latest
sync_latest-IsBounded limit k pod node file h =
    let p = scaler_payload_of k (read_payload file) in
    let within = lookup-IsWithinLimit limit k (read_payload file) h in
    let pods_changed = (append_if_new limit p.pod_loops pod).1 in
    let nodes_changed = (append_if_new limit p.node_loops node).1 in
    let synced : ScalerPayload = record {
      pod_loops = (append_if_new limit p.pod_loops pod).0;
      node_loops = (append_if_new limit p.node_loops node).0;
    } in
    let pods = append_if_new-length limit p.pod_loops pod within.0 in
    let nodes = append_if_new-length limit p.node_loops node within.1 in
    (
      changed-IsBounded limit (pods_changed || nodes_changed) k synced file (pods, nodes) h,
      (pods, nodes),
    )
