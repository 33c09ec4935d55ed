-- ===== src/Cloud/Create/Completion.antt =====
-- What exit code 0 of linux-script/create-vultr-worker.py says.
use predictive_autoscaling_k.Cloud.{
  Json, Members, Outcome, attribute_error, command_failed, command_not_found, incomplete_record,
  member, no_fuel, no_member, object, raised, returned, script_error, string, type_error,
  value_error,
}
use predictive_autoscaling_k.Cloud.Answers.{text_at}
use predictive_autoscaling_k.Cloud.Calls.{api_call-Gives}
use predictive_autoscaling_k.Cloud.Create.{Config, Environ, build_payload, load_config}
use predictive_autoscaling_k.Cloud.Create.Payload.{IsOrder, build_payload-IsOrder}
use predictive_autoscaling_k.Cloud.Create.Readiness.{
  HasInstance, IsReadyRead, instance_of-HasInstance, wait_for_instance_ready-Gives,
}
use predictive_autoscaling_k.Cloud.Create.Run.{
  InstanceState, attempt_main, exit_with, instance_of, main, parse_create_response,
  wait_for_instance_ready, write_result_file,
}
use predictive_autoscaling_k.Cloud.Effects.{
  Event, Host, State, answered, api_call, http_post, lift, return, ◌>>=◌,
}
use predictive_autoscaling_k.Cloud.Environment.{exited}
use predictive_autoscaling_k.Cloud.Teardown.Spec.{Seen, Seen-IsLasting, Seen-newest}
use predictive_autoscaling_k.Cloud.Triples.{
  >>=-Gives, After, Gives, Gives-weaken, and_then-returned, lift_then-Gives, returned-injective,
  ×-IsLasting,
}
use predictive_autoscaling_k.Common.{
  ==_iff, Bool-cases, List, Option, String, [], arith, inl, inr, none, refl, some, string_Eq, sym,
  ℕ, ◌==◌, ◌∙◌, ◌∷◌, ◌≡◌, ◌⊎◌,
}
use predictive_autoscaling_k.Common.Int.{pos, ℤ}

abbrev Always : List Event → Type 0
Always log = Unit {0}

module _ {W : Type 0} (host : Host W) (encode strip : String → String) (show : ℤ → String) where
  exit_with-success :
      (Kept : List Event → Type 0) (Result : Option Json → List Event → Type 0)
      (outcome : Outcome (Option Json)) (log : List Event)
      → (exit_with host encode strip show outcome).0 ≡ exited (pos 0)
      → After Kept Result outcome log
      → Result (exit_with host encode strip show outcome).1 log
  exit_with-success Kept Result (returned written) log success h = h.1
  exit_with-success Kept Result (raised (script_error why)) log success h = absurd (ground arith)
  exit_with-success Kept Result (raised (command_failed code)) log success h = absurd cc
  exit_with-success Kept Result (raised command_not_found) log success h = absurd cc
  exit_with-success Kept Result (raised attribute_error) log success h = absurd cc
  exit_with-success Kept Result (raised type_error) log success h = absurd cc
  exit_with-success Kept Result (raised value_error) log success h = absurd cc
  exit_with-success Kept Result (raised no_fuel) log success h = absurd cc

module _ {W : Type 0} (host : Host W) (encode strip : String → String) (show : ℤ → String)
    (env : Environ) where
  -- The request to create the VM that `payload` describes was answered with this id.
  abbrev pub IsCreated : Json → String → Event → List Event → Type 0
  IsCreated payload instance_id e older =
      (content : Json) × (i : Members) × (e
        ≡ answered (record { method = http_post; path = "/instances"; body = some payload })
            content)
      × HasInstance i content
      × (instance_id ≡ strip (text_at host.repr "id" i))
      × ¬ (instance_id ≡ "")

  -- The text for the result file: the five values, where the file is asked for.
  abbrev IsResult : Config → String → InstanceState → Option Json → Type 0
  IsResult config instance_id ready written =
      ((env.result_file ≡ "") × (written ≡ none))
      ⊎ (¬ (env.result_file ≡ "")
          × (written
              ≡ some (
                  object (
                    member "node_name" (string config.node_name) (
                      member "instance_id" (string instance_id) (
                        member "public_ip" (string ready.public_ip) (
                          member "private_ip" (string ready.private_ip)
                            (member "server_status" (string ready.server_status) no_member))))))))

  write_result_file-IsResult :
      (config : Config) (instance_id : String) (ready : InstanceState)
      → IsResult config instance_id ready (write_result_file env config instance_id ready)
  unfolding write_result_file
  write_result_file-IsResult config instance_id ready = elim (Bool-cases (env.result_file == "")) [
    | inl same ↦ inl (ground (arith, same, ==_iff env.result_file ""), rw same refl)
    | inr other_name ↦
        inr (
          (λ same. ground (arith, other_name, same, ==_iff env.result_file "")),
          rw other_name refl,
        )
  ]

  parse_create_response-IsCreated :
      (payload : Json) (content : Json) (instance_id : String) (older : List Event)
      → parse_create_response host.repr strip content ≡ returned instance_id
      → IsCreated payload instance_id
          (answered
            (record { method = http_post; path = "/instances"; body = some payload })
            content)
          older
  unfolding parse_create_response
  parse_create_response-IsCreated payload content instance_id older h =
      let (i, found, made) = and_then-returned (instance_of content) _ instance_id h in
      let id = strip (text_at host.repr "id" i) in
      elim (Bool-cases (id == "")) [
        | inl empty ↦
            let failed : raised (script_error incomplete_record) ≡ returned instance_id =
              rw empty at made in
            absurd cc
        | inr some_id ↦
            let same : id ≡ instance_id = returned-injective id instance_id (rw some_id at made) in
            (
              content,
              i,
              refl,
              instance_of-HasInstance content i found,
              sym same,
              λ empty. ground (arith, some_id, same, empty, ==_iff id ""),
            )
      ]

  -- The VM was created for the configuration, was then read in a ready state, and the text for the
  -- result file is that of this state.
  abbrev pub IsMade : Config → Option Json → List Event → Type 0
  IsMade config written log =
      (payload : Json) × (instance_id : String) × (ready : InstanceState) × IsOrder show env config
        payload
      × Seen (IsReadyRead host env (Seen (IsCreated payload instance_id)) instance_id ready) log
      × IsResult config instance_id ready written

  wait-IsMade :
      (fuel : ℕ) (config : Config) (payload : Json) (instance_id : String)
      → build_payload encode show env config ≡ returned payload
      → Gives
          (Seen (IsCreated payload instance_id))
          Always
          (wait_for_instance_ready host fuel env config instance_id >>= λ state.
            return (write_result_file env config instance_id state))
          (IsMade config)
  wait-IsMade fuel config payload instance_id built =
      let Created : List Event → Type 0 = Seen (IsCreated payload instance_id) in
      let Ready : InstanceState → List Event → Type 0 =
        λ ready. Seen (IsReadyRead host env Created instance_id ready) in
      let Both : List Event → Type 0 = λ log. Always log × Created log in
      let wait = wait_for_instance_ready host fuel env config instance_id in
      >>=-Gives Created Always Ready (IsMade config) wait _
        (λ s k.
          Gives-weaken Always Created Ready wait
            (wait_for_instance_ready-Gives host env Both Created
              (×-IsLasting Always Created (λ _ _ _ _. tt)
                (Seen-IsLasting (IsCreated payload instance_id)))
              (λ _ both. both.1) fuel config instance_id)
            s (tt, k))
        (λ ready s k. (
          tt,
          (
            payload,
            instance_id,
            ready,
            build_payload-IsOrder encode show env config payload built,
            k.1,
            write_result_file-IsResult config instance_id ready,
          ),
        ))

  create-IsMade :
      (fuel : ℕ) (config : Config) (payload : Json)
      → build_payload encode show env config ≡ returned payload
      → Gives Always Always
          (api_call host http_post "/instances" (some payload) >>= λ created.
            lift (parse_create_response host.repr strip created) >>= λ instance_id.
            wait_for_instance_ready host fuel env config instance_id >>= λ state.
            return (write_result_file env config instance_id state))
          (IsMade config)
  create-IsMade fuel config payload built =
      >>=-Gives Always Always _ (IsMade config)
        (api_call host http_post "/instances" (some payload)) _
        (api_call-Gives host Always (λ _ _ _ _. tt) http_post "/instances" (some payload) refl)
        λ content.
          lift_then-Gives _ Always (IsMade config) (parse_create_response host.repr strip content) _
            (λ _ _. tt)
            λ instance_id same s k. wait-IsMade fuel config payload instance_id built s (
              Seen-newest (IsCreated payload instance_id) Always _ s.log k.1
                (parse_create_response-IsCreated payload content instance_id k.1.0 same))

  module _ (fuel : ℕ) (node_name : String) (config : Config)
      (loaded : load_config env node_name ≡ returned config) where
    attempt_main-Gives :
        Gives Always Always (attempt_main host encode strip show fuel env node_name) (IsMade config)
    unfolding attempt_main
    attempt_main-Gives =
        lift_then-Gives Always Always (IsMade config) (load_config env node_name) _ (λ _ _. tt)
          λ c same. rw (returned-injective c config (sym same ∙ loaded)) (
            lift_then-Gives Always Always (IsMade config) (build_payload encode show env config) _
              (λ _ _. tt) (create-IsMade fuel config))

    -- Exit code 0: the request to create a VM, with the region, the plan and the OS of the configuration, and with
    -- the node's name after the prefixes as its label and its host name, was answered with an id; after
    -- that the VM of this id was read as active and ok, with a public address, and a private one where
    -- a VPC is asked for; and the text for the result file, where one is asked for, holds the node's
    -- name, the id, and the two addresses and the server's status of that reading.
    pub main-IsMade :
        (s : State W)
        → (main host encode strip show fuel env (node_name ∷ []) s).0.0 ≡ exited (pos 0)
        → IsMade config
            (main host encode strip show fuel env (node_name ∷ []) s).0.1
            (main host encode strip show fuel env (node_name ∷ []) s).1.log
    unfolding main
    main-IsMade s success =
        exit_with-success host encode strip show Always (IsMade config)
          (attempt_main host encode strip show fuel env node_name s).0 _ success
          (attempt_main-Gives s tt)
