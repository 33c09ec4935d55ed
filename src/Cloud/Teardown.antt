-- ===== src/Cloud/Teardown.antt =====
-- linux-script/teardown-vultr-worker.py: a worker leaves the cluster and the load balancer, and then its VM
-- is destroyed. What the script prints is left out.
pub mod Balancer
pub mod Run
pub mod Spec
pub mod Ordering
pub mod Completion
pub mod Termination
pub mod Matching
pub mod Liveness
mod Tests
use Prim.Native.String.{◌++◌ as ◌<>◌}
use predictive_autoscaling_k.Cloud.{
  Json, Members, Outcome, and_then, array, elements_of, get_member, is_in, is_true, member_of,
  no_element, no_instance, null, object, raised, returned, script_error, several_instances,
  text_member, unsupported_shape,
}
use predictive_autoscaling_k.Cloud.Environment.{
  IntVariable, get_bool_env, get_int_env, or_default, require_env,
}
use predictive_autoscaling_k.Common.{
  Bool, List, Option, String, [], false, if◌then◌else◌, string_Eq, ◌==◌, ◌||◌, ◌∷◌,
}
use predictive_autoscaling_k.Common.Int.{pos, ℤ}

pub record Config : Type 0 where
  pub target_node_name : String
  pub target_load_balancer_id : String
  pub vultr_api_key : String
  pub vultr_api_base : String
  pub wait_timeout_seconds : ℤ
  pub wait_interval_seconds : ℤ
  pub kubectl_drain_timeout : String
  pub kubectl_grace_period : String
  pub debug_instance_lookup : Bool
  pub vultr_label_prefix : String
  pub vultr_hostname_prefix : String

pub record InstanceMatch : Type 0 where
  pub instance_id : String
  pub label : String
  pub hostname : String
  pub public_ip : String

-- The variables that `load_config` reads, and whether `kubectl` is on the path.
pub record Environ : Type 0 where
  pub has_kubectl : Bool
  pub load_balancer_variable : Option String
  pub api_key_variable : Option String
  pub api_base_variable : Option String
  pub timeout_variable : IntVariable
  pub interval_variable : IntVariable
  pub drain_timeout_variable : Option String
  pub grace_period_variable : Option String
  pub debug_variable : Option String
  pub label_prefix_variable : Option String
  pub hostname_prefix_variable : Option String

unfoldable pub load_config : Environ → String → Outcome Config
unfolding require_env get_int_env get_bool_env
load_config env node_name = and_then (require_env env.load_balancer_variable) λ load_balancer_id.
    and_then (require_env env.api_key_variable) λ api_key.
      and_then (get_int_env env.timeout_variable (pos 300)) λ timeout.
        and_then (get_int_env env.interval_variable (pos 5)) λ interval.
          and_then (get_bool_env env.debug_variable) λ debug. returned (record {
            target_node_name = node_name;
            target_load_balancer_id = load_balancer_id;
            vultr_api_key = api_key;
            vultr_api_base = or_default env.api_base_variable "https://api.vultr.com/v2";
            wait_timeout_seconds = timeout;
            wait_interval_seconds = interval;
            kubectl_drain_timeout = or_default env.drain_timeout_variable "5m";
            kubectl_grace_period = or_default env.grace_period_variable "30";
            debug_instance_lookup = debug;
            vultr_label_prefix = or_default env.label_prefix_variable "";
            vultr_hostname_prefix = or_default env.hostname_prefix_variable "";
          })

abbrev pub listed_under : Json → Members → Outcome (List Json)
listed_under (array xs) m = returned (elements_of xs)
listed_under _ m = returned (object m ∷ [])

-- The list of the instances in a response.
unfoldable pub instances_of : Json → Outcome (List Json)
instances_of (object m) = listed_under (member_of "instances" null m) m
instances_of (array xs) = returned (elements_of xs)
instances_of _ = raised (script_error unsupported_shape)

-- `expected_labels` and `expected_hostnames`
abbrev pub expected_names : String → String → List String
expected_names prefix name = if prefix == "" then name ∷ [] else name ∷ (prefix <> name) ∷ []

module _ (repr : Json → String) where
  unfoldable pub is_candidate : Config → Members → Bool
  is_candidate config m =
      is_in (text_member repr "label" m)
        (expected_names config.vultr_label_prefix config.target_node_name)
      || is_in (text_member repr "hostname" m)
          (expected_names config.vultr_hostname_prefix config.target_node_name)

  -- The loop over the instances, which skips what is not a dict.
  unfoldable pub candidates_of : Config → List Json → List Members
  unfolding is_candidate
  candidates_of config [] = []
  candidates_of config (object m ∷ instances) =
      let rest = candidates_of config instances in if is_candidate config m then m ∷ rest else rest
  candidates_of config (_ ∷ instances) = candidates_of config instances

  unfoldable pub only_match : List Members → Outcome InstanceMatch
  only_match [] = raised (script_error no_instance)
  only_match (m ∷ []) = returned (record {
    instance_id = text_member repr "id" m;
    label = text_member repr "label" m;
    hostname = text_member repr "hostname" m;
    public_ip = text_member repr "main_ip" m;
  })
  only_match (m ∷ n ∷ more) = raised (script_error several_instances)

  unfoldable pub parse_instance_by_node_name : Config → Json → Outcome InstanceMatch
  unfolding instances_of candidates_of only_match
  parse_instance_by_node_name config content =
      if is_true content
      then and_then (instances_of content)
          (λ instances. only_match (candidates_of config instances))
      else raised (script_error no_instance)

  abbrev pub ids_of : List Json → List String
  ids_of [] = []
  ids_of (object m ∷ instances) = text_member repr "id" m ∷ ids_of instances
  ids_of (_ ∷ instances) = ids_of instances

  unfoldable pub instance_exists_in_list : Json → String → Outcome Bool
  instance_exists_in_list content target_instance_id =
      if is_true content
      then and_then (get_member "instances" (array no_element) content) (λ instances.
        elim instances [
          | array xs ↦ returned (is_in target_instance_id (ids_of (elements_of xs)))
          | _ ↦ returned false
        ])
      else returned false
