-- ===== src/Cloud/Teardown/Ordering.antt =====
-- The order of the calls of a teardown: what each step leaves in the log.
use predictive_autoscaling_k.Cloud.{
  Json, Outcome, attribute_error, command_failed, command_not_found, incomplete_record, no_fuel,
  raised, returned, script_error, timed_out, type_error, value_error,
}
use predictive_autoscaling_k.Cloud.Answers.{
  instance_exists_in_list-ListsVm, lb_has_instance-BalancerLists,
}
use predictive_autoscaling_k.Cloud.Calls.{
  Finishes, IsNewest, Succeeded, again-Finishes, api_call-Gives, monotonic-Gives, poll_after-Gives,
  run_command-Gives, run_unchecked-Gives,
}
use predictive_autoscaling_k.Cloud.Effects.{
  Event, Host, answered, api_call, http_get, http_patch, monotonic, raise, ran, return, run_command,
  run_unchecked,
}
use predictive_autoscaling_k.Cloud.Environment.{deadline_after, list_path}
use predictive_autoscaling_k.Cloud.Teardown.{
  Config, InstanceMatch, instance_exists_in_list, parse_instance_by_node_name,
}
use predictive_autoscaling_k.Cloud.Teardown.Balancer.{
  build_detach_payload, lb_has_instance, parse_lb_summary,
}
use predictive_autoscaling_k.Cloud.Teardown.Matching.{parse_instance_by_node_name-IsOnly}
use predictive_autoscaling_k.Cloud.Teardown.Run.{
  balancer_path, cordon, delete_node, destroy_round, detach_node_from_cluster, detach_round,
  detach_vm_from_lb, drain, get_node, judge, node_exists, resolve_last, resolve_round,
  wait_for_instance_resolution_by_node_name,
}
use predictive_autoscaling_k.Cloud.Teardown.Spec.{
  IsDeleted, IsDestroyed, IsDetached, IsDrained, IsGone, IsMatched, LookupFailed, NodeIsDone, Seen,
  Seen-IsLasting, Seen-newest,
}
use predictive_autoscaling_k.Cloud.Triples.{
  >>=-Gives, Anything, Gives, Gives-map, Gives-weaken, IsLasting, if-Gives, lift_then-Gives,
  ×-IsLasting,
}
use predictive_autoscaling_k.Common.{
  List, String, ap, false, inl, inr, none, refl, some, string_Eq, suc, ℕ, ◌==◌, ◌∙◌, ◌≡◌,
}

abbrev list_event : Json → Event
list_event content = answered (record { method = http_get; path = list_path; body = none }) content

module _ {W : Type 0} (host : Host W) (config : Config) where
  abbrev pub Matched : InstanceMatch → List Event → Type 0
  Matched found = Seen (IsMatched host.repr config found.instance_id)

  module _ (Kept : List Event → Type 0) (lasting : IsLasting Kept) where
    parse_instance_by_node_name-IsMatched :
        (content : Json) (found : InstanceMatch) (log : List Event)
        → parse_instance_by_node_name host.repr config content ≡ returned found
        → IsNewest Kept (list_event content) log
        → Seen (IsMatched host.repr config found.instance_id) log
    parse_instance_by_node_name-IsMatched content found log same newest =
        let (instances, m, entries, only, id) =
          parse_instance_by_node_name-IsOnly host.repr config content found same in
        Seen-newest (IsMatched host.repr config found.instance_id) Kept (list_event content) log
          newest (content, instances, m, refl, entries, only, id)

    judge-Gives :
        (attempt : ℕ) (content : Json) (outcome : Outcome InstanceMatch)
        → parse_instance_by_node_name host.repr config content ≡ outcome
        → Gives
            (λ log. Kept log × IsNewest Kept (list_event content) log)
            Kept
            (judge {W = W} attempt outcome)
            (Finishes Matched)
    judge-Gives attempt content (returned found) same = λ s k. (
      k.0,
      again-Finishes Matched (found.instance_id == "") (suc attempt) found s.log
          (λ _. parse_instance_by_node_name-IsMatched content found s.log same k.1),
    )
    judge-Gives attempt content (raised (script_error why)) same = λ s k. (k.0, tt)
    judge-Gives attempt content (raised (command_failed code)) same = λ s k. k.0
    judge-Gives attempt content (raised command_not_found) same = λ s k. k.0
    judge-Gives attempt content (raised attribute_error) same = λ s k. k.0
    judge-Gives attempt content (raised type_error) same = λ s k. k.0
    judge-Gives attempt content (raised value_error) same = λ s k. k.0
    judge-Gives attempt content (raised no_fuel) same = λ s k. k.0

    list-Gives : Gives Kept Kept (api_call host http_get list_path none) (λ content.
        IsNewest Kept
          (answered (record { method = http_get; path = list_path; body = none }) content))
    list-Gives = api_call-Gives host Kept lasting http_get list_path none refl

    resolve_round-Gives :
        (attempt : ℕ) → Gives Kept Kept (resolve_round host config attempt) (Finishes Matched)
    unfolding resolve_round
    resolve_round-Gives attempt =
        >>=-Gives Kept Kept _ (Finishes Matched) (api_call host http_get list_path none) _
          list-Gives (λ content. judge-Gives attempt content _ refl)

    resolve_last-Gives : Gives Kept Kept (resolve_last host config) Matched
    unfolding resolve_last
    resolve_last-Gives =
        >>=-Gives Kept Kept _ Matched (api_call host http_get list_path none) _ list-Gives
          λ content.
            lift_then-Gives _ Kept Matched (parse_instance_by_node_name host.repr config content) _
              (λ _ k. k.0)
              λ found same.
                if-Gives _ Kept Matched (found.instance_id == "")
                  (raise (script_error incomplete_record)) (return found) (λ _ s k. k.0)
                  (λ _ s k.
                    (k.0, parse_instance_by_node_name-IsMatched content found s.log same k.1))

    pub resolve-Gives :
        (fuel : ℕ)
        → Gives Kept Kept (wait_for_instance_resolution_by_node_name host fuel config) Matched
    unfolding wait_for_instance_resolution_by_node_name
    resolve-Gives fuel =
        >>=-Gives Kept Kept Anything Matched (monotonic host) _ (monotonic-Gives host Kept)
          λ now s k.
            poll_after-Gives host Kept (deadline_after now config.wait_timeout_seconds)
              config.wait_interval_seconds (resolve_round host config) Matched resolve_round-Gives
              (resolve_last host config) resolve_last-Gives fuel 1 s k.0

    node_exists-Gives :
        Gives Kept Kept
          (node_exists host config.target_node_name)
          (λ exists log. exists ≡ false → Seen (LookupFailed host.repr config) log)
    unfolding node_exists
    node_exists-Gives =
        >>=-Gives Kept Kept _ _ (run_unchecked host (get_node config.target_node_name)) _
          (run_unchecked-Gives host Kept lasting (get_node config.target_node_name))
          λ code s k. (
            k.0,
            λ fails.
                Seen-newest (LookupFailed host.repr config) Kept _ s.log k.1 (code, refl, fails),
          )

    drain-Gives :
        Gives Kept Kept
          (run_command host (drain config.target_node_name config))
          (λ _. Seen (IsDrained host.repr config))
    drain-Gives =
        let args = drain config.target_node_name config in
        let Drained = Seen (IsDrained host.repr config) in
        Gives-map Kept Kept (Succeeded Kept args) (λ _. Drained) (run_command host args)
          (λ _ log _ (code, good, newest).
            Seen-newest (IsDrained host.repr config) Kept (ran args code) log newest
              (code, refl, good))
          (run_command-Gives host Kept lasting args)

    delete_node-Gives :
        Gives
          (λ log. Kept log × Seen (IsDrained host.repr config) log)
          Kept
          (run_command host (delete_node config.target_node_name))
          (λ _. NodeIsDone host.repr config)
    delete_node-Gives =
        let args = delete_node config.target_node_name in
        let Drained = Seen (IsDrained host.repr config) in
        let Left : Unit {0} → List Event → Type 0 = λ _. NodeIsDone host.repr config in
        let Both : List Event → Type 0 = λ log. Kept log × Drained log in
        Gives-weaken Kept Drained Left (run_command host args) (
          Gives-map Both Both (Succeeded Both args) Left (run_command host args)
            (λ _ log _ (code, good, newest). inr (
              Seen-newest (IsDeleted host.repr config) Both (ran args code) log newest
                (code, refl, good, newest.2.1)))
            (run_command-Gives host Both
              (×-IsLasting Kept Drained lasting (Seen-IsLasting (IsDrained host.repr config)))
              args))

    pub detach_node-Gives :
        Gives Kept Kept
          (detach_node_from_cluster host config.target_node_name config)
          (λ _. NodeIsDone host.repr config)
    unfolding detach_node_from_cluster
    detach_node-Gives =
        >>=-Gives Kept Kept _ _ (node_exists host config.target_node_name) _ node_exists-Gives
          λ exists.
            if-Gives _ Kept _ exists _ (return tt)
              (λ _ s k.
                >>=-Gives Kept Kept _ _ (run_unchecked host (cordon config.target_node_name)) _
                  (run_unchecked-Gives host Kept lasting (cordon config.target_node_name))
                  (λ _ s' k'.
                    >>=-Gives Kept Kept _ _
                      (run_command host (drain config.target_node_name config)) _ drain-Gives
                      (λ _. delete_node-Gives) s' k'.0)
                  s k.0)
              (λ absent s k. (k.0, inl (k.1 absent)))

    detach_round-Gives :
        (instance_id : String) (s : Unit {0})
        → Gives Kept Kept
            (detach_round host config instance_id s)
            (Finishes λ _. Seen (IsDetached host.repr config instance_id))
    unfolding detach_round
    detach_round-Gives instance_id _ =
        let Out : Unit {0} → List Event → Type 0 =
          λ _. Seen (IsDetached host.repr config instance_id) in
        >>=-Gives Kept Kept _ (Finishes Out) (api_call host http_get (balancer_path config) none) _
          (api_call-Gives host Kept lasting http_get (balancer_path config) none refl)
          λ content.
            lift_then-Gives _ Kept (Finishes Out) (parse_lb_summary host.repr content) _
              (λ _ k. k.0)
              λ _ _.
                lift_then-Gives _ Kept (Finishes Out)
                  (lb_has_instance host.repr content instance_id) _ (λ _ k. k.0)
                  λ attached same s k. (
                    k.0,
                    again-Finishes Out attached tt tt s.log λ absent.
                        Seen-newest (IsDetached host.repr config instance_id) Kept _ s.log k.1 (
                          content,
                          refl,
                          lb_has_instance-BalancerLists host.repr instance_id content
                              (same ∙ ap returned absent),
                        ),
                  )

    pub detach_vm-Gives :
        (fuel : ℕ) (instance_id : String)
        → Gives Kept Kept
            (detach_vm_from_lb host fuel config instance_id)
            (λ _. Seen (IsDetached host.repr config instance_id))
    unfolding detach_vm_from_lb
    detach_vm-Gives fuel instance_id =
        let Out : Unit {0} → List Event → Type 0 =
          λ _. Seen (IsDetached host.repr config instance_id) in
        >>=-Gives Kept Kept _ Out (api_call host http_get (balancer_path config) none) _
          (api_call-Gives host Kept lasting http_get (balancer_path config) none refl)
          λ content.
            lift_then-Gives _ Kept Out (lb_has_instance host.repr content instance_id) _
              (λ _ k. k.0)
              λ attached same.
                if-Gives _ Kept Out attached _ (return tt)
                  (λ _.
                    lift_then-Gives _ Kept Out (build_detach_payload host.repr content instance_id)
                      _ (λ _ k. k.0)
                      λ payload _.
                        >>=-Gives _ Kept _ Out
                          (api_call host http_patch (balancer_path config) (some payload)) _
                          (λ s k.
                            api_call-Gives host Kept lasting http_patch (balancer_path config)
                              (some payload) refl s k.0)
                          λ _.
                            >>=-Gives _ Kept Anything Out (monotonic host) _
                              (λ s k. monotonic-Gives host Kept s k.0)
                              λ now s k.
                                poll_after-Gives host Kept
                                  (deadline_after now config.wait_timeout_seconds)
                                  config.wait_interval_seconds
                                  (detach_round host config instance_id) Out
                                  (detach_round-Gives instance_id) (raise (script_error timed_out))
                                  (λ s k. k) fuel tt s k.0)
                  (λ absent s k. (
                    k.0,
                    Seen-newest (IsDetached host.repr config instance_id) Kept _ s.log k.1 (
                      content,
                      refl,
                      lb_has_instance-BalancerLists host.repr instance_id content
                          (same ∙ ap returned absent),
                    ),
                  ))

    pub destroy_round-Gives :
        (instance_id : String)
        → ((log : List Event) → Kept log → Seen (IsDestroyed host.repr config instance_id) log)
        → (s : Unit {0})
        → Gives Kept Kept
            (destroy_round host instance_id s)
            (Finishes λ _. Seen (IsGone host.repr config instance_id))
    unfolding destroy_round
    destroy_round-Gives instance_id destroyed _ =
        let Out : Unit {0} → List Event → Type 0 =
          λ _. Seen (IsGone host.repr config instance_id) in
        >>=-Gives Kept Kept _ (Finishes Out) (api_call host http_get list_path none) _ list-Gives
          λ content.
            lift_then-Gives _ Kept (Finishes Out)
              (instance_exists_in_list host.repr content instance_id) _ (λ _ k. k.0)
              λ present same s k. (
                k.0,
                again-Finishes Out present tt tt s.log λ absent.
                    Seen-newest (IsGone host.repr config instance_id) Kept _ s.log k.1 (
                      content,
                      refl,
                      instance_exists_in_list-ListsVm host.repr instance_id content
                          (same ∙ ap returned absent),
                      destroyed _ k.1.2,
                    ),
              )
