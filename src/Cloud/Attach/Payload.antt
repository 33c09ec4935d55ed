-- ===== src/Cloud/Attach/Payload.antt =====
-- The list of backends that `build_patch_payload` makes, and `build_detach_payload` of the teardown on it.
use predictive_autoscaling_k.Cloud.{
  Json, array, array_of, elements_of, is_in, object_with, returned,
}
use predictive_autoscaling_k.Cloud.Attach.{LoadBalancerSummary, build_patch_payload, merged_of}
use predictive_autoscaling_k.Cloud.Teardown.Balancer.{build_detach_payload, remaining_of}
use predictive_autoscaling_k.Common.{
  ==_iff, List, String, [], arith, false, not, refl, string_Eq, true, ◌&&◌, ◌++◌, ◌==◌, ◌||◌, ◌∷◌,
  ◌≡◌,
}

-- No text of the list is empty or comes twice.
abbrev pub IsDistinct : List String → Type 0
IsDistinct [] = Unit
IsDistinct (x ∷ xs) = ((x == "") ≡ false) × (is_in x xs ≡ false) × IsDistinct xs

is_in-merged_of :
    (x : String) (seen ids : List String)
    → is_in x (merged_of seen ids) ≡ (is_in x ids && not (x == "") && not (is_in x seen))
unfolding merged_of
is_in-merged_of x seen [] = refl
is_in-merged_of x seen (y ∷ ids) =
    ground (arith, ==_iff x y, is_in-merged_of x seen ids, is_in-merged_of x (y ∷ seen) ids)

is_in-append : (x : String) (xs ys : List String) → is_in x (xs ++ ys) ≡ (is_in x xs || is_in x ys)
is_in-append x [] ys = refl
is_in-append x (y ∷ xs) ys = ground (arith, is_in-append x xs ys)

merged_of-IsDistinct : (seen ids : List String) → IsDistinct (merged_of seen ids)
unfolding merged_of
merged_of-IsDistinct seen [] = tt
merged_of-IsDistinct seen (y ∷ ids) = ground (
  arith,
  ==_iff y y,
  merged_of-IsDistinct seen ids,
  merged_of-IsDistinct (y ∷ seen) ids,
  is_in-merged_of y (y ∷ seen) ids,
)

merged_of-same :
    (seen ids : List String)
    → IsDistinct ids
    → ((x : String) → is_in x ids ≡ true → is_in x seen ≡ false)
    → merged_of seen ids ≡ ids
unfolding merged_of
merged_of-same seen [] h k = refl
merged_of-same seen (y ∷ ids) (full, fresh, h) k = ground (
  arith,
  ==_iff y y,
  k y,
  full,
  merged_of-same (y ∷ seen) ids h (λ x i. ground (arith, k x, ==_iff x y, fresh, i)),
)

append-IsDistinct :
    (target : String) (ids : List String)
    → (target == "") ≡ false
    → is_in target ids ≡ false
    → IsDistinct ids
    → IsDistinct (ids ++ (target ∷ []))
append-IsDistinct target [] full fresh h = (full, refl, tt)
append-IsDistinct target (y ∷ ids) full fresh (filled, apart, h) = (
  filled,
  ground (arith, is_in-append y ids (target ∷ []), ==_iff y target, ==_iff target y, fresh, apart),
  append-IsDistinct target ids full (ground (arith, fresh)) h,
)

module _ (repr : Json → String) where
  remaining_of-array_of :
      (target : String) (ids : List String)
      → IsDistinct ids
      → is_in target ids ≡ false
      → remaining_of repr target (elements_of (array_of (ids ++ (target ∷ [])))) ≡ ids
  unfolding remaining_of
  remaining_of-array_of target [] h fresh = ground (arith, ==_iff target target)
  remaining_of-array_of target (y ∷ ids) (full, apart, h) fresh = ground (
    arith,
    full,
    fresh,
    ==_iff y target,
    ==_iff target y,
    remaining_of-array_of target ids h (ground (arith, fresh)),
  )

  -- The payload of an attachment, read back as the response of the load balancer, gives a payload of
  -- the detachment that has the backends of before: those of a distinct list without the target.
  pub build_detach_payload-build_patch_payload :
      (lb_summary : LoadBalancerSummary) (target : String)
      → IsDistinct (target ∷ lb_summary.instances)
      → build_detach_payload repr
          (object_with "load_balancer" (build_patch_payload lb_summary target))
          target
        ≡ returned (object_with "instances" (array (array_of lb_summary.instances)))
  unfolding build_detach_payload build_patch_payload
  build_detach_payload-build_patch_payload lb_summary target (full, fresh, h) =
      rw
        (
          merged_of-same [] (lb_summary.instances ++ (target ∷ []))
              (append-IsDistinct target lb_summary.instances full fresh h) (λ _ _. refl),
          remaining_of-array_of target lb_summary.instances h fresh,
        )
        refl

-- The backends after an attachment are the ones before and the target, each once.
pub build_patch_payload-IsMerged :
    (lb_summary : LoadBalancerSummary) (target : String)
    → (merged : List String) × (build_patch_payload lb_summary target
        ≡ object_with "instances" (array (array_of merged)))
      × IsDistinct merged
      × ((x : String)
          → is_in x merged ≡ ((is_in x lb_summary.instances || x == target) && not (x == "")))
unfolding build_patch_payload
build_patch_payload-IsMerged lb_summary target =
    let ids = lb_summary.instances ++ (target ∷ []) in
    (
      merged_of [] ids,
      refl,
      merged_of-IsDistinct [] ids,
      λ x.
          ground
            (arith, is_in-merged_of x [] ids, is_in-append x lb_summary.instances (target ∷ [])),
    )
