-- ===== src/Cloud/Teardown/Balancer.antt =====
-- linux-script/teardown-vultr-worker.py: `lb_has_instance`, `parse_lb_summary` and `build_detach_payload` on
-- a response of the load balancer.
use predictive_autoscaling_k.Cloud.{
  Json, Outcome, and_then, array, array_of, elements_of, get_member, is_in, is_true, iterate,
  member_of, no_element, no_member, object, object_with, returned, str, text_member, texts_of,
}
use predictive_autoscaling_k.Common.{
  Bool, List, String, [], false, if◌then◌else◌, map, not, string_Eq, ◌&&◌, ◌==◌, ◌∷◌,
}

-- `data.get("load_balancer", {})`
abbrev load_balancer_of : Json → Outcome Json
load_balancer_of content = get_member "load_balancer" (object no_member) content

-- The five values that `parse_lb_summary` returns.
pub record LbSummary : Type 0 where
  pub lb_id : String
  pub lb_label : String
  pub lb_region : String
  pub lb_status : String
  pub lb_instances : List String

abbrev empty_summary : LbSummary
empty_summary = record {
  lb_id = "";
  lb_label = "";
  lb_region = "";
  lb_status = "";
  lb_instances = [];
}

module _ (repr : Json → String) where
  -- `isinstance(instances, list) and target in [str(x) for x in instances]`
  abbrev pub is_listed : String → Json → Bool
  is_listed target_instance_id (array xs) =
      is_in target_instance_id (map (str repr) (elements_of xs))
  is_listed target_instance_id _ = false

  unfoldable pub lb_has_instance : Json → String → Outcome Bool
  lb_has_instance content target_instance_id =
      if is_true content
      then and_then (load_balancer_of content) (λ lb. elim lb [
        | object m ↦
            returned (is_listed target_instance_id (member_of "instances" (array no_element) m))
        | _ ↦ returned false
      ])
      else returned false

  unfoldable pub parse_lb_summary : Json → Outcome LbSummary
  parse_lb_summary content =
      if is_true content
      then and_then (load_balancer_of content) (λ lb. elim lb [
        | object m ↦ and_then (iterate (member_of "instances" (array no_element) m)) (λ instances.
            returned (record {
              lb_id = text_member repr "id" m;
              lb_label = text_member repr "label" m;
              lb_region = text_member repr "region" m;
              lb_status = text_member repr "status" m;
              lb_instances = texts_of repr instances;
            }))
        | _ ↦ returned empty_summary
      ])
      else returned empty_summary

  -- `[str(x) for x in ids if x and str(x) != target]`
  unfoldable pub remaining_of : String → List Json → List String
  remaining_of target_instance_id [] = []
  remaining_of target_instance_id (x ∷ xs) =
      let rest = remaining_of target_instance_id xs in
      if is_true x && not (str repr x == target_instance_id) then str repr x ∷ rest else rest

  unfoldable pub build_detach_payload : Json → String → Outcome Json
  unfolding remaining_of
  build_detach_payload content target_instance_id =
      if is_true content
      then and_then (load_balancer_of content) (λ lb. elim lb [
        | object m ↦ and_then (iterate (member_of "instances" (array no_element) m)) (λ instances.
            returned (
              object_with "instances"
                (array (array_of (remaining_of target_instance_id instances)))))
        | _ ↦ returned (object_with "instances" (array no_element))
      ])
      else returned (object_with "instances" (array no_element))
