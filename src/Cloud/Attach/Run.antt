-- ===== src/Cloud/Attach/Run.antt =====
-- linux-script/attach-vm-to-lb.py: the steps of `main` with their calls of the API.
use Prim.Native.String.{◌++◌ as ◌<>◌}
use predictive_autoscaling_k.Cloud.{
  Json, Outcome, and_then, raised, region_mismatch, returned, script_error, timed_out,
}
use predictive_autoscaling_k.Cloud.Attach.{
  Config, Environ, InstanceSummary, build_patch_payload, lb_has_instance, load_config,
  parse_instance_id_by_public_ip, parse_instance_summary, parse_lb_summary,
}
use predictive_autoscaling_k.Cloud.Effects.{
  Host, Script, State, api_call, http_get, http_patch, lift, monotonic, raise, return, ◌>>=◌,
}
use predictive_autoscaling_k.Cloud.Environment.{Exit, deadline_after, exited, list_path, uncaught}
use predictive_autoscaling_k.Cloud.Polling.{Turn, after_deadline, again, finished, poll}
use predictive_autoscaling_k.Common.{
  List, String, [], if◌then◌else◌, none, not, some, string_Eq, suc, ℕ, ◌==◌, ◌∷◌,
}
use predictive_autoscaling_k.Common.Int.{pos}

abbrev pub balancer_path : Config → String
balancer_path config = "/load-balancers/" <> config.target_load_balancer_id

-- `except AttachVMError` in `main`.
unfoldable pub exit_of : Outcome (Unit {0}) → Exit
exit_of (returned _) = exited (pos 0)
exit_of (raised (script_error why)) = exited (pos 1)
exit_of (raised why) = uncaught why

module _ (repr : Json → String) where
  -- The body of `try` in the loop, and what follows the loop.
  unfoldable pub resolve : Config → Json → Outcome InstanceSummary
  resolve config content =
      and_then (parse_instance_id_by_public_ip repr content config.target_public_ip)
        λ instance_id. parse_instance_summary repr content instance_id

-- `except AttachVMError: pass`
abbrev pub judge : {W : Type 0} → ℕ → Outcome InstanceSummary → Script W (Turn ℕ InstanceSummary)
judge attempt (returned summary) = return (finished summary)
judge attempt (raised (script_error why)) = return (again (suc attempt))
judge attempt (raised why) = raise why

module _ {W : Type 0} (host : Host W) where
  unfoldable pub resolve_round : Config → ℕ → Script W (Turn ℕ InstanceSummary)
  resolve_round config attempt = do
    content ← api_call host http_get list_path none
    judge attempt (resolve host.repr config content)

  unfoldable pub wait_for_instance_resolution : ℕ → Config → Script W InstanceSummary
  unfolding resolve_round
  wait_for_instance_resolution fuel config = do
    now ← monotonic host
    result ←
        poll host (deadline_after now config.wait_timeout_seconds) config.wait_interval_seconds
          (resolve_round config) fuel 1
    after_deadline
        (do
          content ← api_call host http_get list_path none
          lift (resolve host.repr config content))
        result

  -- A round of the loop after the PATCH.
  unfoldable pub attach_round : Config → String → Unit {0} → Script W (Turn (Unit {0}) (Unit {0}))
  attach_round config instance_id _ = do
    content ← api_call host http_get (balancer_path config) none
    lb_summary ← lift (parse_lb_summary host.repr content)
    return (if lb_has_instance lb_summary instance_id then finished tt else again tt)

  -- The statements of `main` from the first reading of the balancer on.
  unfoldable pub attach : ℕ → Config → InstanceSummary → Script W (Unit {0})
  unfolding attach_round
  attach fuel config instance_summary = do
    content ← api_call host http_get (balancer_path config) none
    lb_summary ← lift (parse_lb_summary host.repr content)
    if not (instance_summary.region == lb_summary.region)
        then raise (script_error region_mismatch)
        else if lb_has_instance lb_summary instance_summary.instance_id
        then return tt
        else (do
          _ ←
              api_call host http_patch (balancer_path config)
                (some (build_patch_payload lb_summary instance_summary.instance_id))
          now ← monotonic host
          result ←
              poll host (deadline_after now config.wait_timeout_seconds)
                config.wait_interval_seconds (attach_round config instance_summary.instance_id) fuel
                tt
          after_deadline (raise (script_error timed_out)) result)

  -- The body of `try` in `main`.
  unfoldable pub attempt_main : ℕ → Environ → String → Script W (Unit {0})
  unfolding wait_for_instance_resolution attach
  attempt_main fuel env public_ip = do
    config ← lift (load_config env public_ip)
    instance_summary ← wait_for_instance_resolution fuel config
    attach fuel config instance_summary

  unfoldable pub main : ℕ → Environ → List String → State W → Exit × State W
  unfolding attempt_main
  main fuel env (public_ip ∷ []) s =
      let (outcome, s') = attempt_main fuel env public_ip s in (exit_of outcome, s')
  main fuel env _ s = (exited (pos 1), s)
