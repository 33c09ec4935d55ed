-- ===== src/Cloud/EndToEnd/Completion.antt =====
-- What exit code 0 of linux-script/create-worker-e2e.py says.
use Prim.Native.String.{◌++◌ as ◌<>◌}
use predictive_autoscaling_k.Cloud.{Json, Members, Outcome, object, raised, returned}
use predictive_autoscaling_k.Cloud.Calls.{Succeeded, run_command-Gives}
use predictive_autoscaling_k.Cloud.Effects.{
  Event, Host, Script, State, lift, proceed, run_command, ◌>>=◌,
}
use predictive_autoscaling_k.Cloud.EndToEnd.{
  Environ, Paths, addresses_of, attach_args, attempt_main, bring_in, check_environment, create_args,
  found_or_error, join_args, join_cluster, main, read_create_result, remove_stale_known_host,
  ssh_options, ssh_target_host, wait_args, wait_for_node_ready, wait_for_ssh_ready,
}
use predictive_autoscaling_k.Cloud.EndToEnd.Reading.{
  HasAddresses, IsTarget, addresses_of-HasAddresses, ssh_target_host-IsTarget,
}
use predictive_autoscaling_k.Cloud.EndToEnd.Steps.{
  Always, IsReached, SucceededIn, SucceededIn-IsLasting, SucceededIn-newest, nothing-SucceededIn,
  run_last-Gives, run_then-Gives, stale-Gives, then-Gives, wait_for_node_ready-Gives,
  wait_for_ssh_ready-Gives,
}
use predictive_autoscaling_k.Cloud.Environment.{exited, or_default}
use predictive_autoscaling_k.Cloud.Teardown.Completion.{exit_of-success}
use predictive_autoscaling_k.Cloud.Triples.{
  >>=-Gives, After, After-Result, Anything, Gives, Gives-map, lift_then-Gives,
}
use predictive_autoscaling_k.Common.{
  List, Option, String, [], ap, none, refl, some, string_Eq, sym, ℕ, ◌++◌, ◌∙◌, ◌∷◌, ◌≡◌,
}
use predictive_autoscaling_k.Common.Int.{pos, ℤ}

-- A chain of scripts from one state on.
proceed-After :
    {W A B : Type 0} (Kept : List Event → Type 0) (Middle : A → List Event → Type 0)
    (Result : B → List Event → Type 0) (next : A → Script W B) (outcome : Outcome A) (s : State W)
    → After Kept Middle outcome s.log
    → ((a : A) → Kept s.log → Middle a s.log → After Always Result (next a s).0 (next a s).1.log)
    → After Always Result (proceed next outcome s).0 (proceed next outcome s).1.log
proceed-After Kept Middle Result next (returned a) s h k = k a h.0 h.1
proceed-After Kept Middle Result next (raised why) s h k = tt

>>=-After :
    {W A B : Type 0} (Kept : List Event → Type 0) (Middle : A → List Event → Type 0)
    (Result : B → List Event → Type 0) (first : Script W A) (next : A → Script W B) (s : State W)
    → After Kept Middle (first s).0 (first s).1.log
    → ((a : A)
        → Kept (first s).1.log
        → Middle a (first s).1.log
        → After Always Result (next a (first s).1).0 (next a (first s).1).1.log)
    → After Always Result ((first >>= next) s).0 ((first >>= next) s).1.log
>>=-After Kept Middle Result first next s h k =
    proceed-After Kept Middle Result next (first s).0 (first s).1 h k

lift_then-After :
    {W A B : Type 0} (Result : B → List Event → Type 0) (outcome : Outcome A)
    (next : A → Script W B) (s : State W)
    → ((a : A) → outcome ≡ returned a → After Always Result (next a s).0 (next a s).1.log)
    → After Always Result ((lift outcome >>= next) s).0 ((lift outcome >>= next) s).1.log
lift_then-After Result (returned a) next s k = k a refl
lift_then-After Result (raised why) next s k = tt

module _ {W : Type 0} (host : Host W) (env : Environ) (paths : Paths) (extract : String → String)
    (show : ℤ → String) (read : W → Option Json) where
  -- With the addresses of the VM, the commands of the four steps succeeded in their order.
  abbrev pub AreDone : String → String × String → List Event → Type 0
  AreDone node_name addresses log =
      (target_host : String) × (options : List String) × IsTarget
        (or_default env.host_mode_variable "private") addresses target_host
      × SucceededIn
          ((paths.executable ∷ paths.attach_lb_script ∷ addresses.0 ∷ [])
            ∷ ("kubectl"
                ∷ "wait"
                ∷ "--for=condition=Ready"
                ∷ ("node/" <> node_name)
                ∷ ("--timeout=" <> or_default env.ready_timeout_variable "300s")
                ∷ [])
            ∷ (paths.add_worker_script
                ∷ (or_default env.ssh_user_variable "root" <> "@" <> target_host)
                ∷ addresses.1
                ∷ or_default env.flannel_variable "enp8s0"
                ∷ node_name
                ∷ [])
            ∷ ("ssh"
                ∷ (options
                    ++ ((or_default env.ssh_user_variable "root" <> "@" <> target_host)
                        ∷ "true"
                        ∷ [])))
            ∷ (paths.executable ∷ paths.create_vultr_worker_script ∷ node_name ∷ [])
            ∷ [])
          log

  -- The file held a dict with the two addresses when the command of step 1 had ended, and the steps are done
  -- with them; `s` is the state at the start.
  abbrev pub IsBroughtIn : String → State W → List Event → Type 0
  IsBroughtIn node_name s log =
      (m : Members) × (addresses : String × String) × (read
          (run_command host (create_args paths node_name) s).1.world
        ≡ some (object m))
      × HasAddresses host.repr m addresses
      × AreDone node_name addresses log

  join_cluster-Gives :
      (fuel : ℕ) (node_name ssh_target : String) (addresses : String × String)
      (reached : List (List String))
      → Gives
          (SucceededIn reached)
          Always
          (join_cluster host env paths extract show read fuel node_name ssh_target addresses)
          (λ _. SucceededIn (
            attach_args paths addresses.0
            ∷ wait_args env node_name
            ∷ join_args paths env ssh_target addresses.1 node_name
            ∷ reached))
  unfolding join_cluster
  join_cluster-Gives fuel node_name ssh_target addresses reached =
      let join = join_args paths env ssh_target addresses.1 node_name in
      let wait = wait_args env node_name in
      let attach = attach_args paths addresses.0 in
      let Out : Unit {0} → List Event → Type 0 =
        λ _. SucceededIn (attach ∷ wait ∷ join ∷ reached) in
      run_then-Gives host join reached Out _ λ _.
        >>=-Gives (SucceededIn (join ∷ reached)) Always (λ _. SucceededIn (wait ∷ join ∷ reached))
          Out (wait_for_node_ready host env fuel node_name) _
          (wait_for_node_ready-Gives host env fuel node_name (join ∷ reached))
          (λ _ s k. run_last-Gives host env attach (wait ∷ join ∷ reached) s k.1)

  bring_in-Gives :
      (fuel : ℕ) (node_name : String) (addresses : String × String)
      → Gives
          (SucceededIn (create_args paths node_name ∷ []))
          Always
          (bring_in host env paths extract show read fuel node_name addresses)
          (λ _. AreDone node_name addresses)
  unfolding bring_in
  bring_in-Gives fuel node_name addresses =
      let created : List (List String) = create_args paths node_name ∷ [] in
      let K = SucceededIn created in
      let Out : Unit {0} → List Event → Type 0 = λ _. AreDone node_name addresses in
      lift_then-Gives K Always Out
        (ssh_target_host (or_default env.host_mode_variable "private") addresses) _ (λ _ _. tt)
        λ target_host same.
          let ssh_target = or_default env.ssh_user_variable "root" <> "@" <> target_host in
          then-Gives K Anything Out (remove_stale_known_host host env extract addresses.1) _
            (stale-Gives host env extract addresses.1 created)
            λ _ s k.
              then-Gives K Anything Out (remove_stale_known_host host env extract ssh_target) _
                (stale-Gives host env extract ssh_target created)
                (λ _ s k.
                  then-Gives K (λ _. IsReached host env show ssh_target created) Out
                    (wait_for_ssh_ready host env fuel show ssh_target) _
                    (wait_for_ssh_ready-Gives host env fuel show ssh_target created)
                    (λ _ s k.
                      Gives-map (SucceededIn _) Always _ Out
                        (join_cluster host env paths extract show read fuel node_name ssh_target
                          addresses)
                        (λ _ log _ done. (
                          target_host,
                          ssh_options show env k.1.0,
                          ssh_target_host-IsTarget _ addresses target_host same,
                          done,
                        ))
                        (join_cluster-Gives fuel node_name ssh_target addresses _) s k.1.2)
                    s k.0)
                s k.0

  -- The rest of the script, after the file was read.
  found-After :
      (node_name : String) (fuel : ℕ) (s s' : State W) (found : Option Json)
      → s' ≡ (run_command host (create_args paths node_name) s).1
      → read s'.world ≡ found
      → SucceededIn (create_args paths node_name ∷ []) s'.log
      → After Always
          (λ _. IsBroughtIn node_name s)
          (proceed
            (λ content. lift (addresses_of host.repr content) >>= λ addresses.
              bring_in host env paths extract show read fuel node_name addresses)
            (found_or_error found)
            s').0
          (proceed
            (λ content. lift (addresses_of host.repr content) >>= λ addresses.
              bring_in host env paths extract show read fuel node_name addresses)
            (found_or_error found)
            s').1.log
  found-After node_name fuel s s' none here_now held k = tt
  found-After node_name fuel s s' (some content) here_now held k =
      let created : List (List String) = create_args paths node_name ∷ [] in
      lift_then-Gives (SucceededIn created) Always (λ _. IsBroughtIn node_name s)
        (addresses_of host.repr content) _ (λ _ _. tt)
        (λ addresses same.
          let (m, is_object, both) = addresses_of-HasAddresses host.repr content addresses same in
          Gives-map (SucceededIn created) Always (λ _. AreDone node_name addresses)
            (λ _. IsBroughtIn node_name s)
            (bring_in host env paths extract show read fuel node_name addresses)
            (λ _ log _ done. (
              m,
              addresses,
              ap (λ z. read z.world) (sym here_now) ∙ held ∙ ap some is_object,
              both,
              done,
            ))
            (bring_in-Gives fuel node_name addresses))
        s' k

  attempt_main-After :
      (fuel : ℕ) (node_name : String) (s : State W)
      → After Always
          (λ _. IsBroughtIn node_name s)
          (attempt_main host env paths extract show read fuel node_name s).0
          (attempt_main host env paths extract show read fuel node_name s).1.log
  unfolding attempt_main read_create_result
  attempt_main-After fuel node_name s =
      let args = create_args paths node_name in
      let K = SucceededIn [] in
      lift_then-After (λ _. IsBroughtIn node_name s) (check_environment env) _ s
        λ _ _.
          >>=-After K (Succeeded K args) (λ _. IsBroughtIn node_name s) (run_command host args) _ s
            (run_command-Gives host K (SucceededIn-IsLasting []) args s (nothing-SucceededIn s.log))
            λ _ _ done.
              found-After node_name fuel s (run_command host args s).1 _ refl refl
                (SucceededIn-newest args [] done.0 _ done.1 done.2)

  -- Exit code 0 for a given node: when the command of step 1 had ended, the result file held a dict with two
  -- addresses that are not empty; and the commands of the four steps succeeded in their order: the creation,
  -- the ssh test of the host that the mode asks for, the join, the wait for the node, and the attachment
  -- of the public address.
  pub main-IsBroughtIn :
      (fuel : ℕ) (generated node_name : String) (s : State W)
      → (main host env paths extract show read fuel generated (node_name ∷ []) s).0 ≡ exited (pos 0)
      → IsBroughtIn node_name s
          (main host env paths extract show read fuel generated (node_name ∷ []) s).1.log
  unfolding main
  main-IsBroughtIn fuel generated node_name s success =
      After-Result Always (λ _. IsBroughtIn node_name s)
        (attempt_main host env paths extract show read fuel node_name s).0
        (attempt_main host env paths extract show read fuel node_name s).1.log tt
        (exit_of-success _ success) (attempt_main-After fuel node_name s)
