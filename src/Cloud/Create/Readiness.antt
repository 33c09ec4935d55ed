-- ===== src/Cloud/Create/Readiness.antt =====
-- What the result file of linux-script/create-vultr-worker.py is written from.
use Prim.Native.String.{◌++◌ as ◌<>◌}
use predictive_autoscaling_k.Cloud.{
  Json, Members, as_object, empty_response, get_member, is_true, member_of, null, object,
  object_with, raised, returned, script_error, string, timed_out,
}
use predictive_autoscaling_k.Cloud.Answers.{as_object-object, get_member-object, text_at}
use predictive_autoscaling_k.Cloud.Calls.{
  Finishes, IsNewest, api_call-Gives, monotonic-Gives, poll_after-Gives,
}
use predictive_autoscaling_k.Cloud.Create.{Config, Environ}
use predictive_autoscaling_k.Cloud.Create.Run.{
  InstanceState, attach_vpc_to_instance, instance_of, is_due, is_ready, parse_instance_state,
  ready_round, wait_for_instance_ready,
}
use predictive_autoscaling_k.Cloud.Effects.{
  Event, Host, answered, api_call, http_get, http_post, monotonic, raise,
}
use predictive_autoscaling_k.Cloud.Environment.{deadline_after}
use predictive_autoscaling_k.Cloud.Polling.{again, finished}
use predictive_autoscaling_k.Cloud.Teardown.Run.{instance_path}
use predictive_autoscaling_k.Cloud.Teardown.Spec.{Seen, Seen-newest}
use predictive_autoscaling_k.Cloud.Triples.{
  >>=-Gives, Anything, Gives, IsLasting, and_then-returned, if-Gives, lift_then-Gives,
  returned-injective,
}
use predictive_autoscaling_k.Common.{
  ==_iff, Bool, Bool-cases, List, String, ap, arith, false, if◌then◌else◌, inl, inr, none, refl,
  some, string_Eq, sym, true, ℕ, ◌∙◌, ◌≡◌, ◌⊎◌,
}

-- The VM runs, has a public address, and a private one where a VPC is asked for.
abbrev pub IsReady : String → InstanceState → Type 0
IsReady vpc_id ready =
    (ready.status ≡ "active")
    × (ready.server_status ≡ "ok")
    × ¬ (ready.public_ip ≡ "")
    × ((vpc_id ≡ "") ⊎ ¬ (ready.private_ip ≡ ""))

pub is_ready-IsReady :
    (vpc_id : String) (ready : InstanceState) → is_ready vpc_id ready ≡ true → IsReady vpc_id ready
unfolding is_ready
is_ready-IsReady vpc_id ready h = ground (
  arith,
  ==_iff ready.status "active",
  ==_iff ready.server_status "ok",
  ==_iff ready.public_ip "",
  ==_iff vpc_id "",
  ==_iff ready.private_ip "",
)

-- The answer has an instance with these members.
abbrev pub HasInstance : Members → Json → Type 0
HasInstance i content =
    (m : Members) × (content ≡ object m) × (member_of "instance" null m ≡ object i)

-- The instance was read in this state, after `Earlier` held, and the state is ready.
abbrev pub IsReadyRead :
    {W : Type 0}
    → Host W
    → Environ
    → (List Event → Type 0)
    → String
    → InstanceState
    → Event
    → List Event
    → Type 0
IsReadyRead host env Earlier instance_id ready e older =
    (content : Json) × (i : Members) × (e
      ≡ answered (record { method = http_get; path = "/instances/" <> instance_id; body = none })
          content)
    × HasInstance i content
    × (ready.status ≡ text_at host.repr "status" i)
    × (ready.server_status ≡ text_at host.repr "server_status" i)
    × (ready.public_ip ≡ text_at host.repr "main_ip" i)
    × (ready.private_ip ≡ text_at host.repr "internal_ip" i)
    × IsReady env.vpc_id ready
    × Earlier older

pub instance_of-HasInstance :
    (content : Json) (i : Members) → instance_of content ≡ returned i → HasInstance i content
unfolding instance_of
instance_of-HasInstance content i h = elim (Bool-cases (is_true content)) [
  | inr empty ↦
      let failed : raised (script_error empty_response) ≡ returned i = rw empty at h in absurd cc
  | inl full ↦
      let (v, got, h1) =
        and_then-returned (get_member "instance" null content) as_object i (rw full at h) in
      let (m, same, under) = get_member-object "instance" null v content got in
      (m, same, under ∙ as_object-object v i h1)
]

module _ {W : Type 0} (host : Host W) (env : Environ) (Kept Earlier : List Event → Type 0)
    (lasting : IsLasting Kept) (earlier : (log : List Event) → Kept log → Earlier log) where
  newest-IsReadyRead :
      (instance_id : String) (content : Json) (ready : InstanceState) (log : List Event)
      → parse_instance_state host.repr content ≡ returned ready
      → is_ready env.vpc_id ready ≡ true
      → IsNewest Kept
          (answered
            (record { method = http_get; path = instance_path instance_id; body = none })
            content)
          log
      → Seen (IsReadyRead host env Earlier instance_id ready) log
  unfolding parse_instance_state
  newest-IsReadyRead instance_id content ready log parsed is_it newest =
      let (i, found, made) = and_then-returned (instance_of content) _ ready parsed in
      let same = sym (returned-injective _ ready made) in
      Seen-newest (IsReadyRead host env Earlier instance_id ready) Kept _ log newest (
        content,
        i,
        refl,
        instance_of-HasInstance content i found,
        ap (λ z. z.status) same,
        ap (λ z. z.server_status) same,
        ap (λ z. z.public_ip) same,
        ap (λ z. z.private_ip) same,
        is_ready-IsReady env.vpc_id ready is_it,
        earlier newest.0 newest.2,
      )

  ready_if-Finishes :
      (Result : InstanceState → List Event → Type 0) (b attached : Bool) (ready : InstanceState)
      (log : List Event)
      → (b ≡ true → Result ready log)
      → Finishes Result (if b then finished ready else again attached) log
  ready_if-Finishes Result true attached ready log h = h refl
  ready_if-Finishes Result false attached ready log h = tt

  attach_vpc_to_instance-Gives :
      (instance_id : String)
      → Gives Kept Kept (attach_vpc_to_instance host instance_id env.vpc_id) (λ content.
        IsNewest Kept (
          answered
            (record {
              method = http_post;
              path = "/instances/" <> instance_id <> "/vpcs/attach";
              body = some (object_with "vpc_id" (string env.vpc_id));
            })
            content))
  unfolding attach_vpc_to_instance
  attach_vpc_to_instance-Gives instance_id =
      api_call-Gives host Kept lasting http_post ("/instances/" <> instance_id <> "/vpcs/attach")
        (some (object_with "vpc_id" (string env.vpc_id))) refl

  ready_round-Gives :
      (instance_id : String) (attached : Bool)
      → Gives Kept Kept
          (ready_round host env.vpc_id instance_id attached)
          (Finishes λ ready. Seen (IsReadyRead host env Earlier instance_id ready))
  unfolding ready_round
  ready_round-Gives instance_id attached =
      let Out : InstanceState → List Event → Type 0 =
        λ ready. Seen (IsReadyRead host env Earlier instance_id ready) in
      >>=-Gives Kept Kept _ (Finishes Out) (api_call host http_get (instance_path instance_id) none)
        _ (api_call-Gives host Kept lasting http_get (instance_path instance_id) none refl)
        λ content.
          lift_then-Gives _ Kept (Finishes Out) (parse_instance_state host.repr content) _
            (λ _ k. k.0)
            λ ready same.
              if-Gives _ Kept (Finishes Out) (is_due env.vpc_id attached ready) _ _
                (λ _.
                  >>=-Gives _ Kept _ (Finishes Out)
                    (attach_vpc_to_instance host instance_id env.vpc_id) _
                    (λ s k. attach_vpc_to_instance-Gives instance_id s k.0) (λ _ s k. (k.0, tt)))
                (λ _ s k. (
                  k.0,
                  ready_if-Finishes Out (is_ready env.vpc_id ready) attached ready s.log
                      λ is_it. newest-IsReadyRead instance_id content ready s.log same is_it k.1,
                ))

  pub wait_for_instance_ready-Gives :
      (fuel : ℕ) (config : Config) (instance_id : String)
      → Gives Kept Kept
          (wait_for_instance_ready host fuel env config instance_id)
          (λ ready. Seen (IsReadyRead host env Earlier instance_id ready))
  unfolding wait_for_instance_ready
  wait_for_instance_ready-Gives fuel config instance_id =
      let Out : InstanceState → List Event → Type 0 =
        λ ready. Seen (IsReadyRead host env Earlier instance_id ready) in
      >>=-Gives Kept Kept Anything Out (monotonic host) _ (monotonic-Gives host Kept) λ now s k.
        poll_after-Gives host Kept (deadline_after now config.wait_timeout_seconds)
          config.wait_interval_seconds (ready_round host env.vpc_id instance_id) Out
          (ready_round-Gives instance_id) (raise (script_error timed_out)) (λ s k. k) fuel false s
          k.0
