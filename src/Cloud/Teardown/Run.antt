-- ===== src/Cloud/Teardown/Run.antt =====
-- linux-script/teardown-vultr-worker.py: the steps of `main` with their calls of the API and of `kubectl`.
use Prim.Native.String.{◌++◌ as ◌<>◌}
use predictive_autoscaling_k.Cloud.{
  Outcome, incomplete_record, missing_command, raised, returned, script_error, timed_out,
}
use predictive_autoscaling_k.Cloud.Effects.{
  Host, Script, State, api_call, http_delete, http_get, http_patch, is_success, lift, monotonic,
  raise, return, run_command, run_unchecked, ◌>>=◌,
}
use predictive_autoscaling_k.Cloud.Environment.{Exit, deadline_after, exit_of, exited, list_path}
use predictive_autoscaling_k.Cloud.Polling.{Turn, after_deadline, again, finished, poll}
use predictive_autoscaling_k.Cloud.Teardown.{
  Config, Environ, InstanceMatch, instance_exists_in_list, load_config, parse_instance_by_node_name,
}
use predictive_autoscaling_k.Cloud.Teardown.Balancer.{
  build_detach_payload, lb_has_instance, parse_lb_summary,
}
use predictive_autoscaling_k.Common.{
  Bool, List, String, [], if◌then◌else◌, none, some, string_Eq, suc, ℕ, ◌==◌, ◌∷◌,
}
use predictive_autoscaling_k.Common.Int.{pos}
use predictive_autoscaling_k.Forecast.Service.{present}

abbrev pub instance_path : String → String
instance_path instance_id = "/instances/" <> instance_id

abbrev pub balancer_path : Config → String
balancer_path config = "/load-balancers/" <> config.target_load_balancer_id

-- The commands of `kubectl`.
abbrev pub get_node : String → List String
get_node node_name = "kubectl" ∷ "get" ∷ "node" ∷ node_name ∷ []

abbrev pub cordon : String → List String
cordon node_name = "kubectl" ∷ "cordon" ∷ node_name ∷ []

abbrev pub drain : String → Config → List String
drain node_name config =
    "kubectl"
    ∷ "drain"
    ∷ node_name
    ∷ "--ignore-daemonsets"
    ∷ "--delete-emptydir-data"
    ∷ "--force"
    ∷ ("--timeout=" <> config.kubectl_drain_timeout)
    ∷ ("--grace-period=" <> config.kubectl_grace_period)
    ∷ []

abbrev pub delete_node : String → List String
delete_node node_name = "kubectl" ∷ "delete" ∷ "node" ∷ node_name ∷ []

-- What becomes of an attempt: `try` around the parser, and the test of the match. That `public_ip` is not
-- None always holds. The variable of the loop is the number of the attempt.
abbrev pub judge : {W : Type 0} → ℕ → Outcome InstanceMatch → Script W (Turn ℕ InstanceMatch)
judge attempt (returned found) =
    return (if found.instance_id == "" then again (suc attempt) else finished found)
judge attempt (raised (script_error why)) = return (again (suc attempt))
judge attempt (raised why) = raise why

abbrev pub require_kubectl : Bool → Outcome (Unit {0})
require_kubectl b = if b then returned tt else raised (script_error missing_command)

module _ {W : Type 0} (host : Host W) where
  unfoldable pub resolve_round : Config → ℕ → Script W (Turn ℕ InstanceMatch)
  resolve_round config attempt = do
    content ← api_call host http_get list_path none
    judge attempt (parse_instance_by_node_name host.repr config content)

  -- After the deadline: one attempt more.
  unfoldable pub resolve_last : Config → Script W InstanceMatch
  resolve_last config = do
    content ← api_call host http_get list_path none
    found ← lift (parse_instance_by_node_name host.repr config content)
    if found.instance_id == "" then raise (script_error incomplete_record) else return found

  unfoldable pub wait_for_instance_resolution_by_node_name : ℕ → Config → Script W InstanceMatch
  unfolding resolve_round resolve_last
  wait_for_instance_resolution_by_node_name fuel config = do
    now ← monotonic host
    result ←
        poll host (deadline_after now config.wait_timeout_seconds) config.wait_interval_seconds
          (resolve_round config) fuel 1
    after_deadline (resolve_last config) result

  unfoldable pub node_exists : String → Script W Bool
  node_exists node_name = do
    code ← run_unchecked host (get_node node_name)
    return (is_success code)

  unfoldable pub detach_node_from_cluster : String → Config → Script W (Unit {0})
  unfolding node_exists
  detach_node_from_cluster node_name config = do
    exists ← node_exists node_name
    if exists
        then (do
          _ ← run_unchecked host (cordon node_name)
          _ ← run_command host (drain node_name config)
          run_command host (delete_node node_name))
        else return tt

  -- A round of the loop that waits for the load balancer, without variables of its own.
  unfoldable pub detach_round : Config → String → Unit {0} → Script W (Turn (Unit {0}) (Unit {0}))
  detach_round config target_instance_id _ = do
    content ← api_call host http_get (balancer_path config) none
    _ ← lift (parse_lb_summary host.repr content)
    attached ← lift (lb_has_instance host.repr content target_instance_id)
    return (if attached then again tt else finished tt)

  unfoldable pub detach_vm_from_lb : ℕ → Config → String → Script W (Unit {0})
  unfolding detach_round
  detach_vm_from_lb fuel config target_instance_id = do
    content ← api_call host http_get (balancer_path config) none
    attached ← lift (lb_has_instance host.repr content target_instance_id)
    if attached
        then (do
          payload ← lift (build_detach_payload host.repr content target_instance_id)
          _ ← api_call host http_patch (balancer_path config) (some payload)
          now ← monotonic host
          result ←
              poll host (deadline_after now config.wait_timeout_seconds)
                config.wait_interval_seconds (detach_round config target_instance_id) fuel tt
          after_deadline (raise (script_error timed_out)) result)
        else return tt

  unfoldable pub destroy_round : String → Unit {0} → Script W (Turn (Unit {0}) (Unit {0}))
  destroy_round target_instance_id _ = do
    content ← api_call host http_get list_path none
    present ← lift (instance_exists_in_list host.repr content target_instance_id)
    return (if present then again tt else finished tt)

  unfoldable pub destroy_instance : ℕ → Config → String → Script W (Unit {0})
  unfolding destroy_round
  destroy_instance fuel config target_instance_id = do
    _ ← api_call host http_delete (instance_path target_instance_id) none
    now ← monotonic host
    result ←
        poll host (deadline_after now config.wait_timeout_seconds) config.wait_interval_seconds
          (destroy_round target_instance_id) fuel tt
    after_deadline (raise (script_error timed_out)) result

  -- The three steps, once the configuration is there.
  unfoldable pub tear_down : ℕ → Config → Script W (Unit {0})
  unfolding wait_for_instance_resolution_by_node_name detach_node_from_cluster detach_vm_from_lb
      destroy_instance
  tear_down fuel config = do
    found ← wait_for_instance_resolution_by_node_name fuel config
    _ ← detach_node_from_cluster config.target_node_name config
    _ ← detach_vm_from_lb fuel config found.instance_id
    destroy_instance fuel config found.instance_id

  -- The body of `try` in `main`.
  unfoldable pub attempt_main : ℕ → Environ → String → Script W (Unit {0})
  unfolding tear_down
  attempt_main fuel env node_name = do
    _ ← lift (require_kubectl env.has_kubectl)
    config ← lift (load_config env node_name)
    tear_down fuel config

  unfoldable pub main : ℕ → Environ → List String → State W → Exit × State W
  unfolding attempt_main
  main fuel env (node_name ∷ []) s =
      let (outcome, s') = attempt_main fuel env node_name s in (exit_of outcome, s')
  main fuel env _ s = (exited (pos 1), s)
