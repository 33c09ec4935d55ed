-- ===== src/Cloud/EndToEnd.antt =====
-- linux-script/create-worker-e2e.py: a worker is created, joined to the cluster and put in the list of the load
-- balancer. What the script prints is left out, and the directory and the file of the known hosts.
pub mod Steps
pub mod Reading
pub mod Completion
mod Tests
use Prim.Native.String.{◌++◌ as ◌<>◌}
-- What the script reads of its environment; `ssh_opts` is `SSH_OPTS`, split, where it is not empty.
use predictive_autoscaling_k.Cloud.{
  Json, Outcome, and_then, attribute_error, bad_host_mode, incomplete_record, missing_command,
  object, raised, returned, script_error, text_member, timed_out, value_error,
}
use predictive_autoscaling_k.Cloud.Effects.{
  Host, Script, State, is_success, lift, monotonic, raise, return, run_command, run_unchecked,
  ◌>>=◌,
}
use predictive_autoscaling_k.Cloud.Environment.{
  Exit, IntVariable, deadline_after, exit_of, exited, integer, not_integer, or_default, require_env,
  unset,
}
use predictive_autoscaling_k.Cloud.Polling.{Turn, after_deadline, again, finished, poll}
use predictive_autoscaling_k.Cloud.Teardown.Run.{get_node}
use predictive_autoscaling_k.Common.{
  Bool, List, Option, String, [], if◌then◌else◌, none, some, string_Eq, ℕ, ◌++◌, ◌==◌, ◌||◌, ◌∷◌,
}
use predictive_autoscaling_k.Common.Int.{pos, ℤ}

pub record Environ : Type 0 where
  pub has_kubectl : Bool
  pub required_variables : List (Option String)
  pub flannel_variable : Option String
  pub ssh_user_variable : Option String
  pub host_mode_variable : Option String
  pub known_hosts_file : String
  pub ssh_opts : Option (List String)
  pub ssh_timeout_variable : IntVariable
  pub ssh_interval_variable : IntVariable
  pub connect_timeout_variable : IntVariable
  pub ready_timeout_variable : Option String
  pub registration_variable : IntVariable
  pub node_interval_variable : IntVariable

-- `sys.executable` and the paths of the other scripts.
pub record Paths : Type 0 where
  pub executable : String
  pub create_vultr_worker_script : String
  pub add_worker_script : String
  pub attach_lb_script : String

-- `require_command("kubectl")` and the calls of `require_env`.
unfoldable pub require_all : List (Option String) → Outcome (Unit {0})
unfolding require_env
require_all [] = returned tt
require_all (variable ∷ more) = and_then (require_env variable) λ _. require_all more

unfoldable pub check_environment : Environ → Outcome (Unit {0})
unfolding require_all
check_environment env =
    if env.has_kubectl
    then require_all env.required_variables
    else raised (script_error missing_command)

-- `int(os.environ.get(name, default))`
unfoldable pub int_env : IntVariable → ℤ → Outcome ℤ
int_env unset default = returned default
int_env not_integer default = raised value_error
int_env (integer n) default = returned n

-- The two addresses of the result file.
unfoldable pub addresses_of : (Json → String) → Json → Outcome (String × String)
addresses_of repr (object m) =
    let public_ip = text_member repr "public_ip" m in
    let private_ip = text_member repr "private_ip" m in
    if public_ip == "" || private_ip == ""
    then raised (script_error incomplete_record)
    else returned (public_ip, private_ip)
addresses_of repr content = raised attribute_error

unfoldable pub ssh_target_host : String → String × String → Outcome String
ssh_target_host mode (public_ip, private_ip) =
    if mode == "public"
    then returned public_ip
    else if mode == "private"
    then returned private_ip
    else raised (script_error bad_host_mode)

abbrev pub found_or_error : Option Json → Outcome Json
found_or_error (some content) = returned content
found_or_error none = raised value_error

abbrev pub create_args : Paths → String → List String
create_args paths node_name = paths.executable ∷ paths.create_vultr_worker_script ∷ node_name ∷ []

abbrev pub join_args : Paths → Environ → String → String → String → List String
join_args paths env ssh_target private_ip node_name =
    paths.add_worker_script
    ∷ ssh_target
    ∷ private_ip
    ∷ or_default env.flannel_variable "enp8s0"
    ∷ node_name
    ∷ []

abbrev pub wait_args : Environ → String → List String
wait_args env node_name =
    "kubectl"
    ∷ "wait"
    ∷ "--for=condition=Ready"
    ∷ ("node/" <> node_name)
    ∷ ("--timeout=" <> or_default env.ready_timeout_variable "300s")
    ∷ []

abbrev pub attach_args : Paths → String → List String
attach_args paths public_ip = paths.executable ∷ paths.attach_lb_script ∷ public_ip ∷ []

unfoldable pub default_wait_ssh_options : String → String → List String
default_wait_ssh_options known_hosts_file connect_timeout_seconds =
    "-o"
    ∷ "BatchMode=yes"
    ∷ "-o"
    ∷ "StrictHostKeyChecking=accept-new"
    ∷ "-o"
    ∷ ("UserKnownHostsFile=" <> known_hosts_file)
    ∷ "-o"
    ∷ ("ConnectTimeout=" <> connect_timeout_seconds)
    ∷ []

-- `ssh_opts` in `wait_for_ssh_ready`, and its command.
unfoldable pub ssh_options : (ℤ → String) → Environ → ℤ → List String
unfolding default_wait_ssh_options
ssh_options show env connect_timeout = elim env.ssh_opts [
  | some opts ↦ opts
  | none ↦ default_wait_ssh_options env.known_hosts_file (show connect_timeout)
]

abbrev pub ssh_args : (ℤ → String) → Environ → ℤ → String → List String
ssh_args show env connect_timeout ssh_target =
    "ssh" ∷ (ssh_options show env connect_timeout ++ (ssh_target ∷ "true" ∷ []))

-- `extract` is `extract_ssh_host`: the text after the last `@`.
module _ {W : Type 0} (host : Host W) (env : Environ) where
  unfoldable pub remove_stale_known_host : (String → String) → String → Script W (Unit {0})
  remove_stale_known_host extract ssh_target = do
    let file = env.known_hosts_file
    _ ← run_unchecked host ("ssh-keygen" ∷ "-R" ∷ extract ssh_target ∷ "-f" ∷ file ∷ [])
    _ ←
        run_unchecked host
          ("ssh-keygen" ∷ "-R" ∷ ("[" <> extract ssh_target <> "]:22") ∷ "-f" ∷ file ∷ [])
    return tt

  -- A round of a loop that runs the command again until it succeeds.
  unfoldable pub retry_round : List String → Unit {0} → Script W (Turn (Unit {0}) (Unit {0}))
  retry_round args u = do
    code ← run_unchecked host args
    return (if is_success code then finished tt else again tt)

  unfoldable pub wait_for_ssh_ready : ℕ → (ℤ → String) → String → Script W (Unit {0})
  unfolding retry_round
  wait_for_ssh_ready fuel show ssh_target = do
    timeout ← lift (int_env env.ssh_timeout_variable (pos 300))
    interval ← lift (int_env env.ssh_interval_variable (pos 5))
    connect_timeout ← lift (int_env env.connect_timeout_variable (pos 5))
    now ← monotonic host
    result ←
        poll host (deadline_after now timeout) interval
          (retry_round (ssh_args show env connect_timeout ssh_target)) fuel tt
    after_deadline (raise (script_error timed_out)) result

  unfoldable pub wait_for_node_ready : ℕ → String → Script W (Unit {0})
  unfolding retry_round
  wait_for_node_ready fuel node_name = do
    timeout ← lift (int_env env.registration_variable (pos 300))
    interval ← lift (int_env env.node_interval_variable (pos 5))
    now ← monotonic host
    result ←
        poll host (deadline_after now timeout) interval (retry_round (get_node node_name)) fuel tt
    code ← run_unchecked host (get_node node_name)
    if is_success code
        then run_command host (wait_args env node_name)
        else raise (script_error timed_out)

  module _ (paths : Paths) (extract : String → String) (show : ℤ → String)
      (read : W → Option Json) where
    -- `read_create_result`; `read` is what `json.loads` makes of the file.
    unfoldable pub read_create_result : Script W Json
    read_create_result s = (found_or_error (read s.world), s)

    -- Steps 2 to 4.
    unfoldable pub join_cluster : ℕ → String → String → String × String → Script W (Unit {0})
    unfolding wait_for_node_ready
    join_cluster fuel node_name ssh_target addresses = do
      _ ← run_command host (join_args paths env ssh_target addresses.1 node_name)
      _ ← wait_for_node_ready fuel node_name
      run_command host (attach_args paths addresses.0)

    -- What follows the reading of the addresses that step 1 wrote.
    unfoldable pub bring_in : ℕ → String → String × String → Script W (Unit {0})
    unfolding remove_stale_known_host wait_for_ssh_ready join_cluster
    bring_in fuel node_name addresses = do
      target_host ← lift (ssh_target_host (or_default env.host_mode_variable "private") addresses)
      let ssh_target = or_default env.ssh_user_variable "root" <> "@" <> target_host
      _ ← remove_stale_known_host extract addresses.1
      _ ← remove_stale_known_host extract ssh_target
      _ ← wait_for_ssh_ready fuel show ssh_target
      join_cluster fuel node_name ssh_target addresses

    unfoldable pub attempt_main : ℕ → String → Script W (Unit {0})
    unfolding read_create_result bring_in
    attempt_main fuel node_name = do
      _ ← lift (check_environment env)
      _ ← run_command host (create_args paths node_name)
      content ← read_create_result
      addresses ← lift (addresses_of host.repr content)
      bring_in fuel node_name addresses

    -- `generated` is the name that `generate_node_name` makes.
    unfoldable pub main : ℕ → String → List String → State W → Exit × State W
    unfolding attempt_main exit_of
    main fuel generated [] s =
        let (outcome, s') = attempt_main fuel generated s in (exit_of outcome, s')
    main fuel generated (node_name ∷ []) s =
        let (outcome, s') = attempt_main fuel node_name s in (exit_of outcome, s')
    main fuel generated _ s = (exited (pos 1), s)
