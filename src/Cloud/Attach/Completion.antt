-- ===== src/Cloud/Attach/Completion.antt =====
-- What exit code 0 of linux-script/attach-vm-to-lb.py says.
use Prim.Native.String.{◌++◌ as ◌<>◌}
use predictive_autoscaling_k.Cloud.{
  Json, Outcome, attribute_error, command_failed, command_not_found, no_fuel, raised,
  region_mismatch, returned, script_error, timed_out, type_error, value_error,
}
use predictive_autoscaling_k.Cloud.Attach.{
  Config, Environ, InstanceSummary, build_patch_payload, lb_has_instance, load_config,
  parse_lb_summary,
}
use predictive_autoscaling_k.Cloud.Attach.Reading.{
  HasAddress, HasInstance, lb_has_instance-HasInstance, resolve-HasAddress,
}
use predictive_autoscaling_k.Cloud.Attach.Run.{
  attach, attach_round, attempt_main, balancer_path, exit_of, judge, main, resolve, resolve_round,
  wait_for_instance_resolution,
}
use predictive_autoscaling_k.Cloud.Calls.{
  Finishes, IsNewest, api_call-Gives, monotonic-Gives, poll_after-Gives,
}
use predictive_autoscaling_k.Cloud.Effects.{
  Event, Host, State, answered, api_call, http_get, http_patch, lift, monotonic, raise, return,
  ◌>>=◌,
}
use predictive_autoscaling_k.Cloud.Environment.{deadline_after, exited, list_path}
use predictive_autoscaling_k.Cloud.Polling.{again, finished}
use predictive_autoscaling_k.Cloud.Teardown.Spec.{Seen, Seen-IsLasting, Seen-newest}
use predictive_autoscaling_k.Cloud.Triples.{
  >>=-Gives, After-Result, Anything, Gives, Gives-map, Gives-shift, IsLasting, if-Gives,
  lift_then-Gives, returned-injective, ×-IsLasting,
}
use predictive_autoscaling_k.Common.{
  Bool, List, String, [], arith, false, if◌then◌else◌, none, not, refl, some, string_Eq, sym, true,
  ℕ, ◌==◌, ◌∙◌, ◌∷◌, ◌≡◌,
}
use predictive_autoscaling_k.Common.Int.{pos}

module _ {W : Type 0} (host : Host W) (config : Config) where
  -- The load balancer was read with the instance in its list.
  abbrev pub IsAttached : String → Event → List Event → Type 0
  IsAttached instance_id e older =
      (content : Json) × (e
        ≡ answered
            (record {
              method = http_get;
              path = "/load-balancers/" <> config.target_load_balancer_id;
              body = none;
            })
            content)
      × HasInstance host.repr instance_id content

  -- The list of the VMs was read, and its first VM with the address had this id.
  abbrev pub IsResolved : String → Event → List Event → Type 0
  IsResolved instance_id e older =
      (content : Json) × (e
        ≡ answered (record { method = http_get; path = list_path; body = none }) content)
      × HasAddress host.repr config.target_public_ip instance_id content

  -- The instance with the address is in the list of the load balancer.
  abbrev pub IsDone : List Event → Type 0
  IsDone log =
      (instance_id : String) × Seen (IsResolved instance_id) log × Seen (IsAttached instance_id) log

  module _ (Kept : List Event → Type 0) (lasting : IsLasting Kept) where
    read-Gives :
        (path : String)
        → Gives Kept Kept (api_call host http_get path none) (λ content.
          IsNewest Kept (answered (record { method = http_get; path = path; body = none }) content))
    read-Gives path = api_call-Gives host Kept lasting http_get path none refl

    judge-Gives :
        (attempt : ℕ) (content : Json) (outcome : Outcome InstanceSummary)
        → resolve host.repr config content ≡ outcome
        → Gives
            (λ log.
              Kept log
              × IsNewest Kept
                  (answered (record { method = http_get; path = list_path; body = none }) content)
                  log)
            Kept
            (judge {W = W} attempt outcome)
            (Finishes λ found. Seen (IsResolved found.instance_id))
    judge-Gives attempt content (returned found) same = λ s k. (
      k.0,
      Seen-newest (IsResolved found.instance_id) Kept _ s.log k.1
          (content, refl, resolve-HasAddress host.repr config content found same),
    )
    judge-Gives attempt content (raised (script_error why)) same = λ s k. (k.0, tt)
    judge-Gives attempt content (raised (command_failed code)) same = λ s k. k.0
    judge-Gives attempt content (raised command_not_found) same = λ s k. k.0
    judge-Gives attempt content (raised attribute_error) same = λ s k. k.0
    judge-Gives attempt content (raised type_error) same = λ s k. k.0
    judge-Gives attempt content (raised value_error) same = λ s k. k.0
    judge-Gives attempt content (raised no_fuel) same = λ s k. k.0

    last-Gives :
        (content : Json) (outcome : Outcome InstanceSummary)
        → resolve host.repr config content ≡ outcome
        → Gives
            (λ log.
              Kept log
              × IsNewest Kept
                  (answered (record { method = http_get; path = list_path; body = none }) content)
                  log)
            Kept
            (lift {W = W} outcome)
            (λ found. Seen (IsResolved found.instance_id))
    last-Gives content (returned found) same = λ s k. (
      k.0,
      Seen-newest (IsResolved found.instance_id) Kept _ s.log k.1
          (content, refl, resolve-HasAddress host.repr config content found same),
    )
    last-Gives content (raised why) same = λ s k. k.0

    pub resolve-Gives :
        (fuel : ℕ)
        → Gives Kept Kept
            (wait_for_instance_resolution host fuel config)
            (λ found. Seen (IsResolved found.instance_id))
    unfolding wait_for_instance_resolution resolve_round
    resolve-Gives fuel =
        let Out : InstanceSummary → List Event → Type 0 =
          λ found. Seen (IsResolved found.instance_id) in
        >>=-Gives Kept Kept Anything Out (monotonic host) _ (monotonic-Gives host Kept) λ now s k.
          poll_after-Gives host Kept (deadline_after now config.wait_timeout_seconds)
            config.wait_interval_seconds (resolve_round host config) Out
            (λ attempt.
              >>=-Gives Kept Kept _ (Finishes Out) (api_call host http_get list_path none) _
                (read-Gives list_path) (λ content. judge-Gives attempt content _ refl))
            (api_call host http_get list_path none >>= λ content.
              lift (resolve host.repr config content))
            (>>=-Gives Kept Kept _ Out (api_call host http_get list_path none) _
              (read-Gives list_path) (λ content. last-Gives content _ refl))
            fuel 1 s k.0

    done-Finishes :
        (Result : Unit {0} → List Event → Type 0) (b : Bool) (log : List Event)
        → (b ≡ true → Result tt log)
        → Finishes {S = Unit {0}} Result (if b then finished tt else again tt) log
    done-Finishes Result true log h = h refl
    done-Finishes Result false log h = tt

    attach_round-Gives :
        (instance_id : String) (u : Unit {0})
        → Gives Kept Kept
            (attach_round host config instance_id u)
            (Finishes λ _. Seen (IsAttached instance_id))
    unfolding attach_round
    attach_round-Gives instance_id u =
        let Out : Unit {0} → List Event → Type 0 = λ _. Seen (IsAttached instance_id) in
        >>=-Gives Kept Kept _ (Finishes Out) (api_call host http_get (balancer_path config) none) _
          (read-Gives (balancer_path config))
          λ content.
            lift_then-Gives _ Kept (Finishes Out) (parse_lb_summary host.repr content) _
              (λ _ k. k.0)
              λ lb_summary same s k. (
                k.0,
                done-Finishes Out (lb_has_instance lb_summary instance_id) s.log λ has.
                    Seen-newest (IsAttached instance_id) Kept _ s.log k.1 (
                      content,
                      refl,
                      lb_has_instance-HasInstance host.repr _ content lb_summary same has,
                    ),
              )

    pub attach-Gives :
        (fuel : ℕ) (found : InstanceSummary)
        → Gives Kept Kept (attach host fuel config found) (λ _. Seen (IsAttached found.instance_id))
    unfolding attach
    attach-Gives fuel found =
        let Out : Unit {0} → List Event → Type 0 = λ _. Seen (IsAttached found.instance_id) in
        >>=-Gives Kept Kept _ Out (api_call host http_get (balancer_path config) none) _
          (read-Gives (balancer_path config))
          λ content.
            lift_then-Gives _ Kept Out (parse_lb_summary host.repr content) _ (λ _ k. k.0)
              λ lb_summary same.
                if-Gives _ Kept Out (not (found.region == lb_summary.region))
                  (raise (script_error region_mismatch)) _ (λ _ s k. k.0)
                  (λ _.
                    if-Gives _ Kept Out (lb_has_instance lb_summary found.instance_id) (return tt) _
                      (λ has s k. (
                        k.0,
                        Seen-newest (IsAttached found.instance_id) Kept _ s.log k.1 (
                          content,
                          refl,
                          lb_has_instance-HasInstance host.repr _ content lb_summary same has,
                        ),
                      ))
                      (λ _.
                        let payload = some (build_patch_payload lb_summary found.instance_id) in
                        >>=-Gives _ Kept _ Out
                          (api_call host http_patch (balancer_path config) payload) _
                          (λ s k.
                            api_call-Gives host Kept lasting http_patch (balancer_path config)
                              payload refl s k.0)
                          λ _.
                            >>=-Gives _ Kept Anything Out (monotonic host) _
                              (λ s k. monotonic-Gives host Kept s k.0)
                              λ now s k.
                                poll_after-Gives host Kept
                                  (deadline_after now config.wait_timeout_seconds)
                                  config.wait_interval_seconds
                                  (attach_round host config found.instance_id) Out
                                  (attach_round-Gives found.instance_id)
                                  (raise (script_error timed_out)) (λ s k. k) fuel tt s k.0))

exit_of-success :
    (outcome : Outcome (Unit {0})) → exit_of outcome ≡ exited (pos 0) → outcome ≡ returned tt
unfolding exit_of
exit_of-success (returned _) h = refl
exit_of-success (raised (script_error why)) h = ground arith
exit_of-success (raised (command_failed code)) h = cc
exit_of-success (raised command_not_found) h = cc
exit_of-success (raised attribute_error) h = cc
exit_of-success (raised type_error) h = cc
exit_of-success (raised value_error) h = cc
exit_of-success (raised no_fuel) h = cc

abbrev Always : List Event → Type 0
Always log = Unit {0}

module _ {W : Type 0} (host : Host W) (fuel : ℕ) (env : Environ) (target : String) (config : Config)
    (loaded : load_config env target ≡ returned config) where
  attempt_main-Gives :
      Gives Always Always (attempt_main host fuel env target) (λ _. IsDone host config)
  unfolding attempt_main
  attempt_main-Gives =
      lift_then-Gives Always Always (λ _. IsDone host config) (load_config env target) _ (λ _ _. tt)
        λ c same s k. rw (returned-injective c config (sym same ∙ loaded)) (
          >>=-Gives Always Always (λ found. Seen (IsResolved host config found.instance_id))
            (λ _. IsDone host config) (wait_for_instance_resolution host fuel config)
            (attach host fuel config) (resolve-Gives host config Always (λ _ _ _ _. tt) fuel)
            (λ found.
              let Resolved = Seen (IsResolved host config found.instance_id) in
              let Attached : Unit {0} → List Event → Type 0 =
                λ _. Seen (IsAttached host config found.instance_id) in
              let Both : List Event → Type 0 = λ log. Always log × Resolved log in
              Gives-map Both Always (λ u log. Resolved log × Attached u log)
                (λ _. IsDone host config) (attach host fuel config found)
                (λ _ log _ both. (found.instance_id, both.0, both.1))
                (Gives-shift Both Always Resolved Attached (attach host fuel config found) (
                  attach-Gives host config Both
                    (×-IsLasting Always Resolved (λ _ _ _ _. tt)
                      (Seen-IsLasting (IsResolved host config found.instance_id)))
                    fuel found)))
            s tt)

  -- Exit code 0: an answer had a VM with the address, and an answer of the load balancer had the id of that VM,
  -- the first with the address, in its list of instances.
  pub main-IsDone :
      (s : State W)
      → (main host fuel env (target ∷ []) s).0 ≡ exited (pos 0)
      → IsDone host config (main host fuel env (target ∷ []) s).1.log
  unfolding main
  main-IsDone s success =
      After-Result Always (λ _. IsDone host config) (attempt_main host fuel env target s).0
        (attempt_main host fuel env target s).1.log tt (exit_of-success _ success)
        (attempt_main-Gives s tt)
