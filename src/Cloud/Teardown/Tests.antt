-- ===== src/Cloud/Teardown/Tests.antt =====
-- Small runs of linux-script/teardown-vultr-worker.py.
use predictive_autoscaling_k.Cloud.{
  Json, Members, array, element, member, no_element, no_fuel, no_member, null, object, returned,
  string,
}
use predictive_autoscaling_k.Cloud.Answers.{text_at}
use predictive_autoscaling_k.Cloud.Effects.{
  api_call, monotonic, run_command, run_unchecked, seconds, sleep,
}
use predictive_autoscaling_k.Cloud.Environment.{exit_of, exited, integer, uncaught, unset}
use predictive_autoscaling_k.Cloud.Polling.{poll}
use predictive_autoscaling_k.Cloud.Sample.{
  balancer_at, detached_by, sample_host, sample_host-IsPrompt, sample_host-IsSteady, sample_start,
  sample_vm,
}
use predictive_autoscaling_k.Cloud.Teardown.{
  Config, Environ, InstanceMatch, instance_exists_in_list, load_config, parse_instance_by_node_name,
}
use predictive_autoscaling_k.Cloud.Teardown.Balancer.{
  build_detach_payload, lb_has_instance, parse_lb_summary,
}
use predictive_autoscaling_k.Cloud.Teardown.Completion.{IsComplete, main-IsComplete, main-IsOrdered}
use predictive_autoscaling_k.Cloud.Teardown.Liveness.{IsDetaching, Says, detach_vm_from_lb-returns}
use predictive_autoscaling_k.Cloud.Teardown.Matching.{
  AreEntries, IsOnly, parse_instance_by_node_name-IsOnly,
}
use predictive_autoscaling_k.Cloud.Teardown.Run.{detach_vm_from_lb, main}
use predictive_autoscaling_k.Cloud.Teardown.Spec.{IsOrdered}
use predictive_autoscaling_k.Cloud.Teardown.Termination.{main-ends}
use predictive_autoscaling_k.Common.{
  Bool, List, [], arith, false, ltb, none, refl, some, string_Eq, true, ◌∷◌, ◌≡◌, ◌≢◌,
}
use predictive_autoscaling_k.Common.Int.{pos}

abbrev sample_env : Environ
sample_env = record {
  has_kubectl = true;
  load_balancer_variable = some "lb-1";
  api_key_variable = some "key";
  api_base_variable = none;
  timeout_variable = integer (pos 60);
  interval_variable = unset;
  drain_timeout_variable = none;
  grace_period_variable = none;
  debug_variable = none;
  label_prefix_variable = none;
  hostname_prefix_variable = none;
}

abbrev sample_config : Config
sample_config = record {
  target_node_name = "worker-5";
  target_load_balancer_id = "lb-1";
  vultr_api_key = "key";
  vultr_api_base = "https://api.vultr.com/v2";
  wait_timeout_seconds = pos 60;
  wait_interval_seconds = pos 5;
  kubectl_drain_timeout = "5m";
  kubectl_grace_period = "30";
  debug_instance_lookup = false;
  vultr_label_prefix = "";
  vultr_hostname_prefix = "";
}

sample_loaded : load_config sample_env "worker-5" ≡ returned sample_config
unfolding load_config
sample_loaded = refl

-- The whole script: exit code 0 after fifteen seconds of the host's clock.
sample_exit : (main sample_host 61 sample_env ("worker-5" ∷ []) sample_start).0 ≡ exited (pos 0)
unfolding main poll monotonic sleep api_call run_command run_unchecked exit_of load_config
    parse_instance_by_node_name lb_has_instance build_detach_payload parse_lb_summary
    instance_exists_in_list
sample_exit = refl

sample_duration :
    (main sample_host 61 sample_env ("worker-5" ∷ []) sample_start).1.world ≡ seconds 15
unfolding main poll monotonic sleep api_call run_command run_unchecked exit_of load_config
    parse_instance_by_node_name lb_has_instance build_detach_payload parse_lb_summary
    instance_exists_in_list
sample_duration = refl

main-IsOrdered_example :
    IsOrdered sample_host.repr sample_config
      (main sample_host 61 sample_env ("worker-5" ∷ []) sample_start).1.log
main-IsOrdered_example =
    main-IsOrdered sample_host 61 sample_env "worker-5" sample_config sample_loaded sample_start
      refl

main-IsComplete_example :
    IsComplete sample_host sample_config
      (main sample_host 61 sample_env ("worker-5" ∷ []) sample_start).1.log
main-IsComplete_example =
    main-IsComplete sample_host 61 sample_env "worker-5" sample_config sample_loaded sample_start
      refl sample_exit

main-ends_example :
    (main sample_host 61 sample_env ("worker-5" ∷ []) sample_start).0 ≢ uncaught no_fuel
main-ends_example =
    main-ends sample_host sample_host-IsSteady sample_config 61 4 refl (omega arith) sample_env
      "worker-5" sample_start sample_loaded

balancer_at-Says :
    (attached : Bool) → Says sample_host sample_config sample_vm attached (balancer_at attached)
unfolding lb_has_instance parse_lb_summary build_detach_payload
balancer_at-Says true = (refl, (_, refl), (_, refl))
balancer_at-Says false = (refl, (_, refl), (_, refl))

sample_host-IsDetaching : IsDetaching sample_host sample_config sample_vm detached_by
sample_host-IsDetaching = record {
  reads = λ w. (
    balancer_at (ltb w detached_by),
    ltb w detached_by,
    refl,
    balancer_at-Says (ltb w detached_by),
    λ late. ground (arith, late),
  );
  accepts = λ payload w. (null, refl);
}

detach_vm_from_lb-returns_example :
    (detach_vm_from_lb sample_host 61 sample_config sample_vm sample_start).0 ≡ returned tt
detach_vm_from_lb-returns_example =
    detach_vm_from_lb-returns sample_host sample_host-IsSteady sample_config sample_vm 0
      sample_host-IsPrompt detached_by sample_host-IsDetaching 60 4 refl refl (omega arith) 61
      sample_start (omega arith) (omega arith)

abbrev sample_match : InstanceMatch
sample_match = record {
  instance_id = sample_vm;
  label = "worker-5";
  hostname = "";
  public_ip = "10.0.0.5";
}

-- Two entries go by no name or by another, and one is the node's.
abbrev three_entries : Json
three_entries = array (
    element (object (member "id" (string "vm-0") (member "label" (string "worker-4") no_member))) (
      element null (
        element
          (object (
            member "id" (string sample_vm) (
              member "label" (string "worker-5") (member "main_ip" (string "10.0.0.5") no_member))))
          no_element)))

parse_instance_by_node_name-IsOnly_example :
    (instances : List Json) × (m : Members) × AreEntries
      (λ _. "")
      sample_config
      three_entries
      instances
    × IsOnly (λ _. "") sample_config m instances
    × (sample_vm ≡ text_at (λ _. "") "id" m)
unfolding parse_instance_by_node_name
parse_instance_by_node_name-IsOnly_example =
    parse_instance_by_node_name-IsOnly (λ _. "") sample_config three_entries sample_match refl
