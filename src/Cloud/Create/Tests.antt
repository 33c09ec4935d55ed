-- ===== src/Cloud/Create/Tests.antt =====
-- Small runs of linux-script/create-vultr-worker.py, on a host whose VM gets its private address after
-- seven seconds.
use predictive_autoscaling_k.Cloud.{Json, member, no_member, null, object, object_with, string}
use predictive_autoscaling_k.Cloud.Create.{Config, Environ, build_payload, csv_env, load_config}
use predictive_autoscaling_k.Cloud.Create.Completion.{IsMade, main-IsMade}
use predictive_autoscaling_k.Cloud.Create.Run.{
  is_due, is_ready, main, parse_create_response, parse_instance_state,
}
use predictive_autoscaling_k.Cloud.Effects.{
  Host, Method, State, api_call, body_read, http_get, http_post, monotonic, seconds, sleep,
}
use predictive_autoscaling_k.Cloud.Environment.{Exit, exited, integer, unset}
use predictive_autoscaling_k.Cloud.Polling.{poll}
use predictive_autoscaling_k.Common.{
  Option, String, [], false, if◌then◌else◌, ltb, none, refl, some, string_Eq, ℕ, ◌+◌, ◌∷◌, ◌≡◌,
}
use predictive_autoscaling_k.Common.Int.{pos}

abbrev vm_state : String → Json
vm_state internal_ip = object_with "instance" (
    object (
      member "status" (string "active") (
        member "server_status" (string "ok") (
          member "main_ip" (string "203.0.113.9")
            (member "internal_ip" (string internal_ip) no_member)))))

abbrev respond_at : Method → String → ℕ → Json
respond_at http_get path now = vm_state (if ltb now (seconds 7) then "" else "10.0.0.9")
respond_at http_post path now = object_with "instance" (object_with "id" (string "vm-9"))
respond_at _ path now = null

abbrev sample_host : Host ℕ
sample_host = record {
  clock = λ now. now;
  look = λ now. now;
  pause = λ n now. now + n;
  respond = λ request now. (body_read (respond_at request.method request.path now), now);
  execute = λ args now. (none, now);
  repr = λ content. "";
}

abbrev sample_env : Environ
sample_env = record {
  os_id_variable = integer (pos 2136);
  api_key_variable = some "key";
  region_variable = some "sgp";
  plan_variable = some "vc2-1c-1gb";
  api_base_variable = none;
  flannel_variable = none;
  timeout_variable = integer (pos 60);
  interval_variable = unset;
  debug_variable = none;
  label_prefix = "k3s-";
  hostname_prefix = "";
  firewall_group_id = "";
  ssh_key_items = "ssh-1" ∷ "" ∷ [];
  tag_items = [];
  user_data = "";
  script_id = "";
  inline_key = "";
  key_file = "";
  key_file_text = none;
  vpc_id = "vpc-1";
  result_file = "result.json";
}

abbrev sample_config : Config
sample_config = record {
  node_name = "worker-5";
  vultr_api_key = "key";
  vultr_region = "sgp";
  vultr_plan = "vc2-1c-1gb";
  vultr_os_id = pos 2136;
  vultr_api_base = "https://api.vultr.com/v2";
  flannel_iface_default = "enp8s0";
  wait_timeout_seconds = pos 60;
  wait_interval_seconds = pos 5;
  debug_vultr_create = false;
}

abbrev sample_start : State ℕ
sample_start = record { world = 0; log = [] }

abbrev sample_run : (Exit × Option Json) × State ℕ
sample_run =
    main sample_host (λ t. t) (λ t. t) (λ n. "2136") 61 sample_env ("worker-5" ∷ []) sample_start

sample_exit : sample_run.0.0 ≡ exited (pos 0)
unfolding main load_config poll monotonic sleep api_call parse_create_response parse_instance_state
    is_ready is_due build_payload
sample_exit = refl

main-IsMade_example :
    IsMade sample_host
      (λ t. t)
      (λ t. t)
      (λ n. "2136")
      sample_env
      sample_config
      sample_run.0.1
      sample_run.1.log
unfolding load_config
main-IsMade_example =
    main-IsMade sample_host (λ t. t) (λ t. t) (λ n. "2136") sample_env 61 "worker-5" sample_config
      refl sample_start sample_exit

sample_items : csv_env ("ssh-1" ∷ "" ∷ "ssh-2" ∷ []) ≡ "ssh-1" ∷ "ssh-2" ∷ []
unfolding csv_env
sample_items = refl
