-- ===== src/Cloud/Teardown/Completion.antt =====
-- The whole of a teardown: the order of its calls, and what its exit code 0 says.
use predictive_autoscaling_k.Cloud.{
  Outcome, attribute_error, command_failed, command_not_found, no_fuel, raised, returned,
  script_error, timed_out, type_error, value_error,
}
use predictive_autoscaling_k.Cloud.Calls.{monotonic_shift-Gives, poll_after-Gives}
use predictive_autoscaling_k.Cloud.Effects.{
  Event, Host, Reply, Request, State, api_call, bad_body, body_read, failed_request, http_delete,
  log_response, monotonic, raise, ◌>>=◌,
}
use predictive_autoscaling_k.Cloud.Environment.{deadline_after, exit_of, exited}
use predictive_autoscaling_k.Cloud.Polling.{after_deadline, poll}
use predictive_autoscaling_k.Cloud.Teardown.{Config, Environ, load_config}
use predictive_autoscaling_k.Cloud.Teardown.Ordering.{
  Matched, destroy_round-Gives, detach_node-Gives, detach_vm-Gives, resolve-Gives,
}
use predictive_autoscaling_k.Cloud.Teardown.Run.{
  attempt_main, destroy_instance, destroy_round, detach_node_from_cluster, detach_vm_from_lb,
  instance_path, main, require_kubectl, tear_down, wait_for_instance_resolution_by_node_name,
}
use predictive_autoscaling_k.Cloud.Teardown.Spec.{
  IsDestroyed, IsDetached, IsGone, IsMatched, IsOrdered, IsOrdered-IsLasting, NodeIsDone,
  NodeIsDone-IsLasting, Seen, Seen-IsLasting, Seen-newest, path_of,
}
use predictive_autoscaling_k.Cloud.Triples.{
  >>=-Gives, After, After-Kept, After-Result, Gives, Gives-map, Gives-shift, Gives-weaken,
  lift_then-Gives, returned-injective, ×-IsLasting,
}
use predictive_autoscaling_k.Common.{List, String, [], arith, none, refl, sym, ℕ, ◌∙◌, ◌∷◌, ◌≡◌}
use predictive_autoscaling_k.Common.Int.{pos}

module _ {W : Type 0} (host : Host W) (config : Config) where
  -- What has to be known before an instance is destroyed.
  abbrev IsReady : String → List Event → Type 0
  IsReady instance_id log =
      (IsOrdered host.repr config log × NodeIsDone host.repr config log)
      × Seen (IsDetached host.repr config instance_id) log
      × Seen (IsMatched host.repr config instance_id) log

  IsAllowed-IsReady :
      (instance_id : String) (e : Event) (log : List Event)
      → path_of e ≡ instance_path instance_id
      → IsReady instance_id log
      → IsOrdered host.repr config (e ∷ log)
  unfolding IsOrdered
  IsAllowed-IsReady instance_id e log path ((ordered, left), out, matched) =
      ((λ _. (instance_id, path, left, out, matched)), ordered)

  log_response-IsDestroyed :
      (instance_id : String) (log : List Event) (p : Reply × W)
      → IsReady instance_id log
      → let request : Request = record {
        method = http_delete;
        path = instance_path instance_id;
        body = none;
      } in
        After
          (IsOrdered host.repr config)
          (λ _. Seen (IsDestroyed host.repr config instance_id))
          (log_response request log p).0
          (log_response request log p).1.log
  log_response-IsDestroyed instance_id log (body_read content, w) ready = (
    IsAllowed-IsReady instance_id _ log refl ready,
    Seen-newest (IsDestroyed host.repr config instance_id) (IsReady instance_id) _ _
        (log, refl, ready) (content, refl, ready.2),
  )
  log_response-IsDestroyed instance_id log (failed_request, w) ready =
      IsAllowed-IsReady instance_id _ log refl ready
  log_response-IsDestroyed instance_id log (bad_body, w) ready =
      IsAllowed-IsReady instance_id _ log refl ready

  delete-Gives :
      (instance_id : String)
      → Gives
          (IsReady instance_id)
          (IsOrdered host.repr config)
          (api_call host http_delete (instance_path instance_id) none)
          (λ _. Seen (IsDestroyed host.repr config instance_id))
  unfolding api_call
  delete-Gives instance_id s ready = log_response-IsDestroyed instance_id s.log _ ready

  destroy-Gives :
      (fuel : ℕ) (instance_id : String)
      → Gives
          (IsReady instance_id)
          (IsOrdered host.repr config)
          (destroy_instance host fuel config instance_id)
          (λ _. Seen (IsGone host.repr config instance_id))
  unfolding destroy_instance
  destroy-Gives fuel instance_id =
      let Ordered = IsOrdered host.repr config in
      let Destroyed = Seen (IsDestroyed host.repr config instance_id) in
      let Out : Unit {0} → List Event → Type 0 = λ _. Seen (IsGone host.repr config instance_id) in
      let Both : List Event → Type 0 = λ log. Ordered log × Destroyed log in
      >>=-Gives _ Ordered (λ _. Destroyed) Out
        (api_call host http_delete (instance_path instance_id) none) _ (delete-Gives instance_id)
        λ _.
          >>=-Gives _ Ordered (λ _. Destroyed) Out (monotonic host) _
            (monotonic_shift-Gives host Ordered Destroyed)
            λ now.
              let deadline = deadline_after now config.wait_timeout_seconds in
              Gives-weaken Ordered Destroyed Out
                (poll host deadline config.wait_interval_seconds (destroy_round host instance_id)
                    fuel tt
                  >>= after_deadline (raise (script_error timed_out)))
                (poll_after-Gives host Both deadline config.wait_interval_seconds
                  (destroy_round host instance_id) Out
                  (destroy_round-Gives host config Both
                    (×-IsLasting Ordered Destroyed (IsOrdered-IsLasting host.repr config)
                      (Seen-IsLasting (IsDestroyed host.repr config instance_id)))
                    instance_id (λ _ both. both.1))
                  (raise (script_error timed_out)) (λ s k. k) fuel tt)

  -- The VM of the node was destroyed and is gone.
  abbrev pub IsComplete : List Event → Type 0
  IsComplete log = (instance_id : String) × Seen (IsGone host.repr config instance_id) log

  tear_down-Gives :
      (fuel : ℕ)
      → Gives
          (IsOrdered host.repr config)
          (IsOrdered host.repr config)
          (tear_down host fuel config)
          (λ _. IsComplete)
  unfolding tear_down
  tear_down-Gives fuel =
      let Ordered = IsOrdered host.repr config in
      let Left = NodeIsDone host.repr config in
      let Out : Unit {0} → List Event → Type 0 = λ _. IsComplete in
      let lasting = IsOrdered-IsLasting host.repr config in
      >>=-Gives Ordered Ordered (Matched host config) Out
        (wait_for_instance_resolution_by_node_name host fuel config) _
        (resolve-Gives host config Ordered lasting fuel)
        λ found.
          let Is : List Event → Type 0 = Matched host config found in
          let Both : List Event → Type 0 = λ log. Is log × Left log in
          let is_lasting = Seen-IsLasting (IsMatched host.repr config found.instance_id) in
          >>=-Gives _ Ordered (λ _. Both) Out
            (detach_node_from_cluster host config.target_node_name config) _
            (Gives-shift _ Ordered Is (λ _. Left)
              (detach_node_from_cluster host config.target_node_name config)
              (detach_node-Gives host config (λ log. Ordered log × Is log)
                (×-IsLasting Ordered Is lasting is_lasting)))
            λ _.
              >>=-Gives _ Ordered
                (λ _ log. Both log × Seen (IsDetached host.repr config found.instance_id) log) Out
                (detach_vm_from_lb host fuel config found.instance_id) _
                (Gives-shift _ Ordered Both
                  (λ _. Seen (IsDetached host.repr config found.instance_id))
                  (detach_vm_from_lb host fuel config found.instance_id)
                  (detach_vm-Gives host config (λ log. Ordered log × Both log)
                    (×-IsLasting Ordered Both lasting
                      (×-IsLasting Is Left is_lasting (NodeIsDone-IsLasting host.repr config)))
                    fuel found.instance_id))
                λ _ s k.
                  Gives-map (IsReady found.instance_id) Ordered
                    (λ _. Seen (IsGone host.repr config found.instance_id)) Out
                    (destroy_instance host fuel config found.instance_id)
                    (λ _ log _ gone. (found.instance_id, gone))
                    (destroy-Gives fuel found.instance_id) s ((k.0, k.1.0.1), k.1.1, k.1.0.0)

pub exit_of-success :
    (outcome : Outcome (Unit {0})) → exit_of outcome ≡ exited (pos 0) → outcome ≡ returned tt
unfolding exit_of
exit_of-success (returned _) h = refl
exit_of-success (raised (script_error why)) h = ground arith
exit_of-success (raised (command_failed code)) h = ground arith
exit_of-success (raised command_not_found) h = ground arith
exit_of-success (raised attribute_error) h = cc
exit_of-success (raised type_error) h = cc
exit_of-success (raised value_error) h = cc
exit_of-success (raised no_fuel) h = cc

module _ {W : Type 0} (host : Host W) (fuel : ℕ) (env : Environ) (node_name : String)
    (config : Config) (loaded : load_config env node_name ≡ returned config) where
  empty-IsOrdered : (log : List Event) → log ≡ [] → IsOrdered host.repr config log
  unfolding IsOrdered
  empty-IsOrdered log empty = rw empty tt

  attempt_main-Gives :
      Gives
        (λ log. log ≡ [])
        (IsOrdered host.repr config)
        (attempt_main host fuel env node_name)
        (λ _. IsComplete host config)
  unfolding attempt_main
  attempt_main-Gives =
      let Out : Unit {0} → List Event → Type 0 = λ _. IsComplete host config in
      let Ordered = IsOrdered host.repr config in
      lift_then-Gives _ Ordered Out (require_kubectl env.has_kubectl) _ empty-IsOrdered λ _ _.
        lift_then-Gives _ Ordered Out (load_config env node_name) _ empty-IsOrdered
          λ c same s empty.
            rw (returned-injective c config (sym same ∙ loaded))
              (tear_down-Gives host config fuel s (empty-IsOrdered s.log empty))

  -- However the script ends: where it asked for the destruction of a VM, an answer before that had this VM as
  -- the only one named after the node; `kubectl get node` had failed, or the node had been drained and
  -- then deleted; and an answer of the load balancer had no list with the VM in it.
  pub main-IsOrdered :
      (s : State W)
      → s.log ≡ []
      → IsOrdered host.repr config (main host fuel env (node_name ∷ []) s).1.log
  unfolding main
  main-IsOrdered s empty =
      After-Kept (IsOrdered host.repr config) (λ _. IsComplete host config)
        (attempt_main host fuel env node_name s).0 (attempt_main host fuel env node_name s).1.log
        (attempt_main-Gives s empty)

  -- Exit code 0: an answer had one VM named after the node; after that its destruction was asked for and
  -- acknowledged, and after that an answer had no list of VMs with its id.
  pub main-IsComplete :
      (s : State W)
      → s.log ≡ []
      → (main host fuel env (node_name ∷ []) s).0 ≡ exited (pos 0)
      → IsComplete host config (main host fuel env (node_name ∷ []) s).1.log
  unfolding main
  main-IsComplete s empty success =
      After-Result (IsOrdered host.repr config) (λ _. IsComplete host config)
        (attempt_main host fuel env node_name s).0 (attempt_main host fuel env node_name s).1.log tt
        (exit_of-success _ success) (attempt_main-Gives s empty)
