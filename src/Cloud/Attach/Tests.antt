-- ===== src/Cloud/Attach/Tests.antt =====
-- Small runs of linux-script/attach-vm-to-lb.py.
use predictive_autoscaling_k.Cloud.{array, array_of, is_in, object_with, returned}
use predictive_autoscaling_k.Cloud.Attach.{
  Config, Environ, LoadBalancerSummary, build_patch_payload, lb_has_instance, load_config,
  parse_instance_id_by_public_ip, parse_instance_summary, parse_lb_summary,
}
use predictive_autoscaling_k.Cloud.Attach.Completion.{IsDone, main-IsDone}
use predictive_autoscaling_k.Cloud.Attach.Payload.{
  IsDistinct, build_detach_payload-build_patch_payload, build_patch_payload-IsMerged,
}
use predictive_autoscaling_k.Cloud.Attach.Run.{exit_of, main, resolve}
use predictive_autoscaling_k.Cloud.Effects.{api_call, monotonic, sleep}
use predictive_autoscaling_k.Cloud.Environment.{exited, integer, unset}
use predictive_autoscaling_k.Cloud.Polling.{poll}
use predictive_autoscaling_k.Cloud.Sample.{sample_host, sample_start}
use predictive_autoscaling_k.Cloud.Teardown.Balancer.{build_detach_payload}
use predictive_autoscaling_k.Common.{
  List, String, [], none, not, refl, some, string_Eq, ◌&&◌, ◌==◌, ◌||◌, ◌∷◌, ◌≡◌,
}
use predictive_autoscaling_k.Common.Int.{pos}

abbrev sample_env : Environ
sample_env = record {
  load_balancer_variable = some "lb-1";
  api_key_variable = some "key";
  api_base_variable = none;
  timeout_variable = integer (pos 60);
  interval_variable = unset;
}

abbrev sample_config : Config
sample_config = record {
  target_load_balancer_id = "lb-1";
  target_public_ip = "10.0.0.5";
  vultr_api_key = "key";
  vultr_api_base = "https://api.vultr.com/v2";
  wait_timeout_seconds = pos 60;
  wait_interval_seconds = pos 5;
}

abbrev sample_summary : LoadBalancerSummary
sample_summary = record {
  lb_id = "lb-1";
  label = "";
  region = "sgp";
  status = "active";
  ip = "10.0.0.1";
  instances = "vm-0" ∷ "vm-2" ∷ [];
}

sample_exit : (main sample_host 61 sample_env ("10.0.0.5" ∷ []) sample_start).0 ≡ exited (pos 0)
unfolding main poll monotonic sleep api_call exit_of load_config resolve
    parse_instance_id_by_public_ip parse_instance_summary parse_lb_summary lb_has_instance
sample_exit = refl

main-IsDone_example :
    IsDone sample_host sample_config
      (main sample_host 61 sample_env ("10.0.0.5" ∷ []) sample_start).1.log
unfolding load_config
main-IsDone_example =
    main-IsDone sample_host 61 sample_env "10.0.0.5" sample_config refl sample_start sample_exit

build_detach_payload-build_patch_payload_example :
    build_detach_payload
      (λ _. "")
      (object_with "load_balancer" (build_patch_payload sample_summary "vm-1"))
      "vm-1"
    ≡ returned (object_with "instances" (array (array_of ("vm-0" ∷ "vm-2" ∷ []))))
build_detach_payload-build_patch_payload_example =
    build_detach_payload-build_patch_payload (λ _. "") sample_summary "vm-1"
      (refl, refl, (refl, refl, (refl, refl, tt)))

build_patch_payload-IsMerged_example :
    (merged : List String) × (build_patch_payload sample_summary "vm-1"
      ≡ object_with "instances" (array (array_of merged)))
    × IsDistinct merged
    × ((x : String)
        → is_in x merged ≡ ((is_in x ("vm-0" ∷ "vm-2" ∷ []) || x == "vm-1") && not (x == "")))
build_patch_payload-IsMerged_example = build_patch_payload-IsMerged sample_summary "vm-1"
