-- ===== src/Cloud/Teardown/Termination.antt =====
-- A teardown comes to its end on a host whose clock runs, whatever the API and `kubectl` answer.
use mathlib.Core.Path.{subst}
use predictive_autoscaling_k.Cloud.{
  Json, Members, Outcome, array, attribute_error, boolean, command_failed, command_not_found,
  get_member, is_true, no_element, no_fuel, no_member, null, number, object, raised, returned,
  script_error, string, timed_out, type_error, value_error,
}
use predictive_autoscaling_k.Cloud.Clock.{
  >>=-Ends, >>=-EndsAt, Ends, IsSettled, IsSteady, and_then-IsSettled, api_call-Ends, if-Ends,
  if-IsSettled, lift-Ends, return-Ends, run_command-Ends, run_unchecked-Ends, wait-Ends,
}
use predictive_autoscaling_k.Cloud.Effects.{
  Host, State, api_call, http_delete, http_get, http_patch, is_success, lift, raise, return,
  run_command, run_unchecked,
}
use predictive_autoscaling_k.Cloud.Environment.{exit_of, list_path, uncaught}
use predictive_autoscaling_k.Cloud.Teardown.{
  Config, Environ, InstanceMatch, instance_exists_in_list, instances_of, load_config, only_match,
  parse_instance_by_node_name,
}
use predictive_autoscaling_k.Cloud.Teardown.Balancer.{
  build_detach_payload, lb_has_instance, parse_lb_summary,
}
use predictive_autoscaling_k.Cloud.Teardown.Run.{
  attempt_main, balancer_path, cordon, delete_node, destroy_instance, destroy_round,
  detach_node_from_cluster, detach_round, detach_vm_from_lb, drain, get_node, instance_path, judge,
  main, node_exists, require_kubectl, resolve_last, resolve_round, tear_down,
  wait_for_instance_resolution_by_node_name,
}
use predictive_autoscaling_k.Cloud.Triples.{returned-injective}
use predictive_autoscaling_k.Common.{
  Bool, List, String, [], arith, false, none, some, string_Eq, suc, sym, true, ℕ, ◌<◌, ◌==◌, ◌∙◌,
  ◌∷◌, ◌≡◌, ◌≢◌,
}
use predictive_autoscaling_k.Common.Int.{pos, pos_part}

get_member-IsSettled :
    (key : String) (default content : Json) → IsSettled (get_member key default content)
get_member-IsSettled key default (object m) = tt
get_member-IsSettled key default null = tt
get_member-IsSettled key default (boolean b) = tt
get_member-IsSettled key default (number n) = tt
get_member-IsSettled key default (string s) = tt
get_member-IsSettled key default (array xs) = tt

only_match-IsSettled :
    (repr : Json → String) (found : List Members) → IsSettled (only_match repr found)
unfolding only_match
only_match-IsSettled repr [] = tt
only_match-IsSettled repr (m ∷ []) = tt
only_match-IsSettled repr (m ∷ n ∷ more) = tt

instances_of-IsSettled : (content : Json) → IsSettled (instances_of content)
unfolding instances_of
instances_of-IsSettled (object m) = ground arith
instances_of-IsSettled null = tt
instances_of-IsSettled (boolean b) = tt
instances_of-IsSettled (number n) = tt
instances_of-IsSettled (string s) = tt
instances_of-IsSettled (array xs) = tt

module _ (repr : Json → String) where
  parse_instance-IsSettled :
      (config : Config) (content : Json)
      → IsSettled (parse_instance_by_node_name repr config content)
  unfolding parse_instance_by_node_name
  parse_instance-IsSettled config content =
      if-IsSettled (is_true content) _ _
        (and_then-IsSettled (instances_of content) _ (instances_of-IsSettled content)
          λ instances. only_match-IsSettled repr _)
        tt

  lb_has_instance-IsSettled :
      (content : Json) (id : String) → IsSettled (lb_has_instance repr content id)
  unfolding lb_has_instance
  lb_has_instance-IsSettled content id =
      if-IsSettled (is_true content) _ _
        (and_then-IsSettled _ _ (get_member-IsSettled "load_balancer" (object no_member) content)
          (λ lb. ground arith))
        tt

  parse_lb_summary-IsSettled : (content : Json) → IsSettled (parse_lb_summary repr content)
  unfolding parse_lb_summary
  parse_lb_summary-IsSettled content =
      if-IsSettled (is_true content) _ _
        (and_then-IsSettled _ _ (get_member-IsSettled "load_balancer" (object no_member) content)
          (λ lb. ground arith))
        tt

  build_detach_payload-IsSettled :
      (content : Json) (id : String) → IsSettled (build_detach_payload repr content id)
  unfolding build_detach_payload
  build_detach_payload-IsSettled content id =
      if-IsSettled (is_true content) _ _
        (and_then-IsSettled _ _ (get_member-IsSettled "load_balancer" (object no_member) content)
          (λ lb. ground arith))
        tt

  instance_exists-IsSettled :
      (content : Json) (id : String) → IsSettled (instance_exists_in_list repr content id)
  unfolding instance_exists_in_list
  instance_exists-IsSettled content id =
      if-IsSettled (is_true content) _ _
        (and_then-IsSettled _ _ (get_member-IsSettled "instances" (array no_element) content)
          (λ xs. ground arith))
        tt

exit_of-ended :
    (outcome : Outcome (Unit {0})) → IsSettled outcome → exit_of outcome ≢ uncaught no_fuel
unfolding exit_of
exit_of-ended (returned _) h = λ e. cc
exit_of-ended (raised why) h = λ e. ground arith

require_kubectl-IsSettled : (b : Bool) → IsSettled (require_kubectl b)
require_kubectl-IsSettled true = tt
require_kubectl-IsSettled false = tt

module _ {W : Type 0} (host : Host W) (steady : IsSteady host) (config : Config) (fuel i : ℕ)
    (interval : config.wait_interval_seconds ≡ pos (suc i))
    (enough : pos_part config.wait_timeout_seconds < fuel) where
  judge-Ends :
      (attempt : ℕ) (outcome : Outcome InstanceMatch)
      → IsSettled outcome
      → Ends host steady (judge attempt outcome)
  judge-Ends attempt (returned found) h = λ s. (omega arith, tt)
  judge-Ends attempt (raised (script_error why)) h = λ s. (omega arith, tt)
  judge-Ends attempt (raised (command_failed code)) h = λ s. (omega arith, tt)
  judge-Ends attempt (raised command_not_found) h = λ s. (omega arith, tt)
  judge-Ends attempt (raised attribute_error) h = λ s. (omega arith, tt)
  judge-Ends attempt (raised type_error) h = λ s. (omega arith, tt)
  judge-Ends attempt (raised value_error) h = λ s. (omega arith, tt)
  judge-Ends attempt (raised no_fuel) h = absurd h

  resolve-Ends : Ends host steady (wait_for_instance_resolution_by_node_name host fuel config)
  unfolding wait_for_instance_resolution_by_node_name resolve_round resolve_last
  resolve-Ends =
      wait-Ends host steady (resolve_round host config)
        (λ attempt.
          >>=-Ends host steady (api_call host http_get list_path none) _
            (api_call-Ends host steady http_get list_path none)
            (λ content. judge-Ends attempt _ (parse_instance-IsSettled host.repr config content)))
        (resolve_last host config)
        (>>=-Ends host steady (api_call host http_get list_path none) _
          (api_call-Ends host steady http_get list_path none)
          λ content.
            >>=-Ends host steady (lift (parse_instance_by_node_name host.repr config content)) _
              (lift-Ends host steady _ (parse_instance-IsSettled host.repr config content))
              λ found.
                if-Ends host steady (found.instance_id == "") _ _ (λ s. (omega arith, tt))
                  (return-Ends host steady found))
        config.wait_timeout_seconds config.wait_interval_seconds i fuel 1 interval enough

  detach_node-Ends : Ends host steady (detach_node_from_cluster host config.target_node_name config)
  unfolding detach_node_from_cluster node_exists
  detach_node-Ends =
      let run = run_command-Ends host steady in
      let try_run = run_unchecked-Ends host steady in
      let node = config.target_node_name in
      >>=-Ends host steady (node_exists host node) _
        (>>=-Ends host steady (run_unchecked host (get_node node)) _ (try_run (get_node node))
          (λ code. return-Ends host steady (is_success code)))
        λ exists.
          if-Ends host steady exists _ (return tt)
            (>>=-Ends host steady (run_unchecked host (cordon node)) _ (try_run (cordon node)) λ _.
              >>=-Ends host steady (run_command host (drain node config)) _
                (run (drain node config)) λ _. run (delete_node node))
            (return-Ends host steady tt)

  timed_out-Ends : Ends host steady {A = Unit {0}} (raise (script_error timed_out))
  timed_out-Ends s = (omega arith, tt)

  detach_vm-Ends : (id : String) → Ends host steady (detach_vm_from_lb host fuel config id)
  unfolding detach_vm_from_lb detach_round
  detach_vm-Ends id =
      let read = api_call-Ends host steady http_get (balancer_path config) none in
      >>=-Ends host steady (api_call host http_get (balancer_path config) none) _ read λ content.
        >>=-Ends host steady (lift (lb_has_instance host.repr content id)) _
          (lift-Ends host steady _ (lb_has_instance-IsSettled host.repr content id))
          λ attached.
            if-Ends host steady attached _ (return tt)
              (>>=-Ends host steady (lift (build_detach_payload host.repr content id)) _
                (lift-Ends host steady _ (build_detach_payload-IsSettled host.repr content id))
                λ payload.
                  >>=-Ends host steady
                    (api_call host http_patch (balancer_path config) (some payload)) _
                    (api_call-Ends host steady http_patch (balancer_path config) (some payload))
                    λ _.
                      wait-Ends host steady (detach_round host config id)
                        (λ _.
                          >>=-Ends host steady (api_call host http_get (balancer_path config) none)
                            _ read
                            λ seen.
                              >>=-Ends host steady (lift (parse_lb_summary host.repr seen)) _
                                (lift-Ends host steady _
                                  (parse_lb_summary-IsSettled host.repr seen))
                                λ _.
                                  >>=-Ends host steady (lift (lb_has_instance host.repr seen id)) _
                                    (lift-Ends host steady _
                                      (lb_has_instance-IsSettled host.repr seen id))
                                    λ still s. (omega arith, tt))
                        (raise (script_error timed_out)) timed_out-Ends config.wait_timeout_seconds
                        config.wait_interval_seconds i fuel tt interval enough)
              (return-Ends host steady tt)

  destroy-Ends : (id : String) → Ends host steady (destroy_instance host fuel config id)
  unfolding destroy_instance destroy_round
  destroy-Ends id =
      >>=-Ends host steady (api_call host http_delete (instance_path id) none) _
        (api_call-Ends host steady http_delete (instance_path id) none)
        λ _.
          wait-Ends host steady (destroy_round host id)
            (λ _.
              >>=-Ends host steady (api_call host http_get list_path none) _
                (api_call-Ends host steady http_get list_path none)
                λ seen.
                  >>=-Ends host steady (lift (instance_exists_in_list host.repr seen id)) _
                    (lift-Ends host steady _ (instance_exists-IsSettled host.repr seen id))
                    λ still s. (omega arith, tt))
            (raise (script_error timed_out)) timed_out-Ends config.wait_timeout_seconds
            config.wait_interval_seconds i fuel tt interval enough

  tear_down-Ends : Ends host steady (tear_down host fuel config)
  unfolding tear_down
  tear_down-Ends =
      >>=-Ends host steady (wait_for_instance_resolution_by_node_name host fuel config) _
        resolve-Ends
        λ found.
          >>=-Ends host steady (detach_node_from_cluster host config.target_node_name config) _
            detach_node-Ends
            λ _.
              >>=-Ends host steady (detach_vm_from_lb host fuel config found.instance_id) _
                (detach_vm-Ends found.instance_id) λ _. destroy-Ends found.instance_id

  -- On a host whose clock runs, with an interval of a second at least and more fuel than the timeout has
  -- seconds, the script comes to its own end.
  pub main-ends :
      (env : Environ) (node_name : String) (s : State W)
      → load_config env node_name ≡ returned config
      → (main host fuel env (node_name ∷ []) s).0 ≢ uncaught no_fuel
  unfolding main attempt_main
  main-ends env node_name s loaded =
      exit_of-ended (attempt_main host fuel env node_name s).0
        (>>=-EndsAt host steady (lift (require_kubectl env.has_kubectl)) _ s
          (lift-Ends host steady _ (require_kubectl-IsSettled env.has_kubectl) s)
          λ _ _.
            >>=-EndsAt host steady (lift (load_config env node_name)) _ s
              (lift-Ends host steady _ (subst IsSettled (sym loaded) tt) s)
              λ c same. rw (returned-injective c config (sym same ∙ loaded)) (tear_down-Ends s)).1
