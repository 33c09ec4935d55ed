-- ===== src/Cloud/EndToEnd/Tests.antt =====
-- A small run of linux-script/create-worker-e2e.py, on a host where ssh answers after seven seconds.
use predictive_autoscaling_k.Cloud.{Json, member, no_member, object, string}
use predictive_autoscaling_k.Cloud.Effects.{
  Host, State, failed_request, monotonic, run_command, run_unchecked, seconds, sleep,
}
use predictive_autoscaling_k.Cloud.EndToEnd.{
  Environ, Paths, addresses_of, check_environment, int_env, main, read_create_result, ssh_options,
  ssh_target_host,
}
use predictive_autoscaling_k.Cloud.EndToEnd.Completion.{IsBroughtIn, main-IsBroughtIn}
use predictive_autoscaling_k.Cloud.Environment.{Exit, exited, integer, unset}
use predictive_autoscaling_k.Cloud.Polling.{poll}
use predictive_autoscaling_k.Common.{
  List, Option, String, [], if◌then◌else◌, ltb, none, refl, some, string_Eq, true, ℕ, ◌&&◌, ◌+◌,
  ◌==◌, ◌∷◌, ◌≡◌,
}
use predictive_autoscaling_k.Common.Int.{pos, ℤ}

abbrev execute_at : List String → ℕ → ℤ
execute_at (command ∷ more) now = if command == "ssh" && ltb now (seconds 7) then pos 255 else pos 0
execute_at [] now = pos 1

abbrev sample_host : Host ℕ
sample_host = record {
  clock = λ now. now;
  look = λ now. now;
  pause = λ n now. now + n;
  respond = λ request now. (failed_request, now);
  execute = λ args now. (some (execute_at args now), now);
  repr = λ content. "";
}

abbrev sample_env : Environ
sample_env = record {
  has_kubectl = true;
  required_variables =
      some "https://10.40.96.3:6443"
      ∷ some "token"
      ∷ some "key"
      ∷ some "sgp"
      ∷ some "vc2-2c-4gb"
      ∷ some "2284"
      ∷ some "lb-1"
      ∷ [];
  flannel_variable = none;
  ssh_user_variable = none;
  host_mode_variable = some "public";
  known_hosts_file = "/root/.ssh/known_hosts";
  ssh_opts = none;
  ssh_timeout_variable = unset;
  ssh_interval_variable = unset;
  connect_timeout_variable = unset;
  ready_timeout_variable = none;
  registration_variable = integer (pos 60);
  node_interval_variable = unset;
}

abbrev sample_paths : Paths
sample_paths = record {
  executable = "python3";
  create_vultr_worker_script = "create-vultr-worker.py";
  add_worker_script = "add-k3s-worker-over-ssh.sh";
  attach_lb_script = "attach-vm-to-lb.py";
}

abbrev sample_file : ℕ → Option Json
sample_file now = some (
    object (
      member "public_ip" (string "203.0.113.9")
        (member "private_ip" (string "10.0.0.9") no_member)))

abbrev sample_start : State ℕ
sample_start = record { world = 0; log = [] }

abbrev sample_run : Exit × State ℕ
sample_run =
    main sample_host sample_env sample_paths (λ t. t) (λ n. "5") sample_file 61 "k3s-worker-1"
      ("worker-5" ∷ []) sample_start

sample_exit : sample_run.0 ≡ exited (pos 0)
unfolding main check_environment addresses_of ssh_target_host int_env poll monotonic sleep
    run_unchecked run_command ssh_options read_create_result
sample_exit = refl

main-IsBroughtIn_example :
    IsBroughtIn sample_host sample_env sample_paths
      (λ t. t)
      (λ n. "5")
      sample_file
      "worker-5"
      sample_start
      sample_run.1.log
main-IsBroughtIn_example =
    main-IsBroughtIn sample_host sample_env sample_paths (λ t. t) (λ n. "5") sample_file 61
      "k3s-worker-1" "worker-5" sample_start sample_exit
