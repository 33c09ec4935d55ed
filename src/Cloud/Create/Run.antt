-- ===== src/Cloud/Create/Run.antt =====
-- linux-script/create-vultr-worker.py: the responses, the waiting loop and `main`.
use Prim.Native.String.{◌++◌ as ◌<>◌}
use predictive_autoscaling_k.Cloud.{
  Json, Members, Outcome, and_then, as_object, empty_response, get_member, incomplete_record,
  is_true, member, no_member, null, object, object_with, raised, returned, script_error, string,
  text_member, timed_out,
}
use predictive_autoscaling_k.Cloud.Create.{Config, Environ, build_payload, load_config}
use predictive_autoscaling_k.Cloud.Effects.{
  Host, Script, State, api_call, http_get, http_post, lift, monotonic, raise, return, ◌>>=◌,
}
use predictive_autoscaling_k.Cloud.Environment.{Exit, deadline_after, exited, uncaught}
use predictive_autoscaling_k.Cloud.Polling.{Turn, after_deadline, again, finished, poll}
use predictive_autoscaling_k.Common.{
  Bool, List, Option, String, [], false, if◌then◌else◌, none, not, some, string_Eq, true, ℕ, ◌&&◌,
  ◌==◌, ◌||◌, ◌∷◌,
}
use predictive_autoscaling_k.Common.Int.{pos, ℤ}

pub record InstanceState : Type 0 where
  pub status : String
  pub server_status : String
  pub public_ip : String
  pub private_ip : String

-- `data.get("instance")`, which has to be a dict, of a response that is not empty.
unfoldable pub instance_of : Json → Outcome Members
instance_of content =
    if is_true content
    then and_then (get_member "instance" null content) as_object
    else raised (script_error empty_response)

module _ (repr : Json → String) where
  unfoldable pub parse_create_response : (String → String) → Json → Outcome String
  unfolding instance_of
  parse_create_response strip content = and_then (instance_of content) λ m.
      let instance_id = strip (text_member repr "id" m) in
      if instance_id == "" then raised (script_error incomplete_record) else returned instance_id

  unfoldable pub parse_instance_state : Json → Outcome InstanceState
  unfolding instance_of
  parse_instance_state content = and_then (instance_of content) λ m. returned (record {
    status = text_member repr "status" m;
    server_status = text_member repr "server_status" m;
    public_ip = text_member repr "main_ip" m;
    private_ip = text_member repr "internal_ip" m;
  })

-- `instance_ready`
unfoldable pub is_ready : String → InstanceState → Bool
is_ready vpc_id state =
    state.status == "active"
    && state.server_status == "ok"
    && not (state.public_ip == "")
    && (vpc_id == "" || not (state.private_ip == ""))

-- The VPC is to be attached now.
unfoldable pub is_due : String → Bool → InstanceState → Bool
is_due vpc_id vpc_attached state =
    state.status == "active"
    && not (state.public_ip == "")
    && not vpc_attached
    && not (vpc_id == "")

-- The text of the result file, where there is one to write.
unfoldable pub write_result_file : Environ → Config → String → InstanceState → Option Json
write_result_file env config instance_id state =
    if env.result_file == ""
    then none
    else some (
        object (
          member "node_name" (string config.node_name) (
            member "instance_id" (string instance_id) (
              member "public_ip" (string state.public_ip) (
                member "private_ip" (string state.private_ip)
                  (member "server_status" (string state.server_status) no_member))))))

module _ {W : Type 0} (host : Host W) where
  unfoldable pub attach_vpc_to_instance : String → String → Script W Json
  attach_vpc_to_instance instance_id vpc_id =
      api_call host http_post ("/instances/" <> instance_id <> "/vpcs/attach")
        (some (object_with "vpc_id" (string vpc_id)))

  -- A round of the loop; its variable is `vpc_attached`. `continue` comes after a pause of its own.
  unfoldable pub ready_round : String → String → Bool → Script W (Turn Bool InstanceState)
  unfolding attach_vpc_to_instance
  ready_round vpc_id instance_id vpc_attached = do
    content ← api_call host http_get ("/instances/" <> instance_id) none
    state ← lift (parse_instance_state host.repr content)
    if is_due vpc_id vpc_attached state
        then (do _ ← attach_vpc_to_instance instance_id vpc_id; return (again true))
        else return (if is_ready vpc_id state then finished state else again vpc_attached)

  unfoldable pub wait_for_instance_ready : ℕ → Environ → Config → String → Script W InstanceState
  unfolding ready_round
  wait_for_instance_ready fuel env config instance_id = do
    now ← monotonic host
    result ←
        poll host (deadline_after now config.wait_timeout_seconds) config.wait_interval_seconds
          (ready_round env.vpc_id instance_id) fuel false
    after_deadline (raise (script_error timed_out)) result

  module _ (encode strip : String → String) (show : ℤ → String) where
    -- The body of `try` in `main`, with what it writes.
    unfoldable pub attempt_main : ℕ → Environ → String → Script W (Option Json)
    unfolding wait_for_instance_ready write_result_file
    attempt_main fuel env node_name = do
      config ← lift (load_config env node_name)
      payload ← lift (build_payload encode show env config)
      created ← api_call host http_post "/instances" (some payload)
      instance_id ← lift (parse_create_response host.repr strip created)
      state ← wait_for_instance_ready fuel env config instance_id
      return (write_result_file env config instance_id state)

    -- `except WorkerCreateError` in `main`.
    abbrev pub exit_with : Outcome (Option Json) → Exit × Option Json
    exit_with (returned written) = (exited (pos 0), written)
    exit_with (raised (script_error why)) = (exited (pos 1), none)
    exit_with (raised why) = (uncaught why, none)

    -- The exit code, and the text of the result file.
    unfoldable pub main : ℕ → Environ → List String → State W → (Exit × Option Json) × State W
    unfolding attempt_main
    main fuel env (node_name ∷ []) s =
        let (outcome, s') = attempt_main fuel env node_name s in (exit_with outcome, s')
    main fuel env _ s = ((exited (pos 1), none), s)
