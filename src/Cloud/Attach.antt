-- ===== src/Cloud/Attach.antt =====
-- linux-script/attach-vm-to-lb.py: a VM joins the load balancer's list. What the script prints is left out.
pub mod Run
pub mod Reading
pub mod Payload
pub mod Completion
mod Tests
use predictive_autoscaling_k.Cloud.{
  Json, Members, Outcome, and_then, array, array_of, as_list, as_object, empty_balancer, get_member,
  is_in, is_true, iterate, member_of, no_element, no_instance, no_member, object, object_with,
  raised, returned, script_error, text_member, texts_of,
}
use predictive_autoscaling_k.Cloud.Environment.{IntVariable, get_int_env, or_default, require_env}
use predictive_autoscaling_k.Common.{
  Bool, List, Option, String, [], false, if◌then◌else◌, string_Eq, true, ◌++◌, ◌==◌, ◌||◌, ◌∷◌,
}
use predictive_autoscaling_k.Common.Int.{pos, ℤ}

pub record Config : Type 0 where
  pub target_load_balancer_id : String
  pub target_public_ip : String
  pub vultr_api_key : String
  pub vultr_api_base : String
  pub wait_timeout_seconds : ℤ
  pub wait_interval_seconds : ℤ

pub record InstanceSummary : Type 0 where
  pub instance_id : String
  pub label : String
  pub region : String
  pub status : String
  pub server_status : String
  pub public_ip : String

pub record LoadBalancerSummary : Type 0 where
  pub lb_id : String
  pub label : String
  pub region : String
  pub status : String
  pub ip : String
  pub instances : List String

-- The variables that `load_config` reads.
pub record Environ : Type 0 where
  pub load_balancer_variable : Option String
  pub api_key_variable : Option String
  pub api_base_variable : Option String
  pub timeout_variable : IntVariable
  pub interval_variable : IntVariable

unfoldable pub load_config : Environ → String → Outcome Config
unfolding require_env get_int_env
load_config env public_ip = and_then (require_env env.load_balancer_variable) λ load_balancer_id.
    and_then (require_env env.api_key_variable) λ api_key.
      and_then (get_int_env env.timeout_variable (pos 300)) λ timeout.
        and_then (get_int_env env.interval_variable (pos 5)) λ interval. returned (record {
          target_load_balancer_id = load_balancer_id;
          target_public_ip = public_ip;
          vultr_api_key = api_key;
          vultr_api_base = or_default env.api_base_variable "https://api.vultr.com/v2";
          wait_timeout_seconds = timeout;
          wait_interval_seconds = interval;
        })

-- `data.get("instances", [])`, which has to be a list, of a response that is not empty.
unfoldable pub listed_instances : Json → Outcome (List Json)
listed_instances content =
    if is_true content
    then and_then (get_member "instances" (array no_element) content) as_list
    else raised (script_error no_instance)

module _ (repr : Json → String) where
  -- The first dict of the list with this text under the key.
  unfoldable pub find_instance : String → String → List Json → Outcome Members
  find_instance key wanted [] = raised (script_error no_instance)
  find_instance key wanted (object m ∷ instances) =
      let rest = find_instance key wanted instances in
      if text_member repr key m == wanted then returned m else rest
  find_instance key wanted (_ ∷ instances) = find_instance key wanted instances

  unfoldable pub parse_instance_id_by_public_ip : Json → String → Outcome String
  unfolding listed_instances find_instance
  parse_instance_id_by_public_ip content target_public_ip =
      and_then (listed_instances content) λ instances.
        and_then (find_instance "main_ip" target_public_ip instances)
          λ m. returned (text_member repr "id" m)

  unfoldable pub parse_instance_summary : Json → String → Outcome InstanceSummary
  unfolding listed_instances find_instance
  parse_instance_summary content target_instance_id =
      and_then (listed_instances content) λ instances.
        and_then (find_instance "id" target_instance_id instances) λ m. returned (record {
          instance_id = target_instance_id;
          label = text_member repr "label" m;
          region = text_member repr "region" m;
          status = text_member repr "status" m;
          server_status = text_member repr "server_status" m;
          public_ip = text_member repr "main_ip" m;
        })

  -- The balancer of a response, and the summary of its members.
  unfoldable pub balancer_of : Json → Outcome Members
  balancer_of content =
      if is_true content
      then and_then (get_member "load_balancer" (object no_member) content) as_object
      else raised (script_error empty_balancer)

  unfoldable pub parse_lb_summary : Json → Outcome LoadBalancerSummary
  unfolding balancer_of
  parse_lb_summary content = and_then (balancer_of content) λ m.
      and_then (iterate (member_of "instances" (array no_element) m)) λ ids. returned (record {
        lb_id = text_member repr "id" m;
        label = text_member repr "label" m;
        region = text_member repr "region" m;
        status = text_member repr "status" m;
        ip = text_member repr "ip" m;
        instances = texts_of repr ids;
      })

-- The loop over the ids, which drops what is empty or seen before.
unfoldable pub merged_of : List String → List String → List String
merged_of seen [] = []
merged_of seen (instance_id ∷ ids) = elim (instance_id == "" || is_in instance_id seen) [
  | true ↦ merged_of seen ids
  | false ↦ instance_id ∷ merged_of (instance_id ∷ seen) ids
]

unfoldable pub build_patch_payload : LoadBalancerSummary → String → Json
unfolding merged_of
build_patch_payload lb_summary target_instance_id =
    object_with "instances"
      (array (array_of (merged_of [] (lb_summary.instances ++ (target_instance_id ∷ [])))))

unfoldable pub lb_has_instance : LoadBalancerSummary → String → Bool
lb_has_instance lb_summary target_instance_id = is_in target_instance_id lb_summary.instances
