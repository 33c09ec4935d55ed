-- ===== src/Sender/Dispatch/Offsets.antt =====
-- `_build_second_request_offsets`: the global index of a second's first request.
use predictive_autoscaling_k.Common.{
  List, [], ap, arith, get_elem?, length, refl, some, suc, take, zero, ℕ, ◌+◌, ◌<◌, ◌∙◌, ◌∷◌, ◌≡◌,
}
use predictive_autoscaling_k.Script.{ScriptPoint}
use predictive_autoscaling_k.Script.Timeline.{requests_in}
use predictive_autoscaling_k.Sender.Dispatch.{build_second_request_offsets, offsets_from}

offsets_from-sum :
    (i r : ℕ) (points : List ScriptPoint) (o : ℕ)
    → get_elem? (offsets_from r points) i ≡ some o
    → o ≡ r + requests_in (take i points)
unfolding offsets_from
offsets_from-sum i r [] o e = cc
offsets_from-sum zero r (p ∷ ps) o e = ground arith
offsets_from-sum (suc i) r (p ∷ ps) o e = omega (arith, offsets_from-sum i (r + p.requests) ps o e)

offsets_from-total :
    (i r : ℕ) (points : List ScriptPoint)
    → i < length points
    → (o : ℕ) × (get_elem? (offsets_from r points) i ≡ some o)
unfolding offsets_from
offsets_from-total i r [] h = absurd (omega arith)
offsets_from-total zero r (p ∷ ps) h = (r, refl)
offsets_from-total (suc i) r (p ∷ ps) h = offsets_from-total i (r + p.requests) ps (omega arith)

-- The offset of each second of the script is there, and is the number of requests in the seconds before.
pub build_second_request_offsets_lem :
    (i : ℕ) (timeline : List ScriptPoint)
    → i < length timeline
    → get_elem? (build_second_request_offsets timeline) i ≡ some (requests_in (take i timeline))
unfolding build_second_request_offsets
build_second_request_offsets_lem i timeline h =
    let (o, e) = offsets_from-total i 0 timeline h in
    let s = offsets_from-sum i 0 timeline o e in
    let same : o ≡ requests_in (take i timeline) = omega (arith, s) in e ∙ ap some same
