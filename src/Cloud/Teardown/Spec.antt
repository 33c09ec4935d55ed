-- ===== src/Cloud/Teardown/Spec.antt =====
-- What a teardown promises, as properties of the log of the calls, the newest first.
use Prim.Native.String.{◌++◌ as ◌<>◌}
use predictive_autoscaling_k.Cloud.{Json, Members}
use predictive_autoscaling_k.Cloud.Answers.{BalancerLists, ListsVm, text_at}
use predictive_autoscaling_k.Cloud.Calls.{IsNewest}
use predictive_autoscaling_k.Cloud.Effects.{
  Event, answered, http_delete, http_get, is_success, ran, refused,
}
use predictive_autoscaling_k.Cloud.Environment.{list_path}
use predictive_autoscaling_k.Cloud.Teardown.{Config}
use predictive_autoscaling_k.Cloud.Teardown.Matching.{AreEntries, IsOnly}
use predictive_autoscaling_k.Cloud.Triples.{IsLasting, is_harmless}
use predictive_autoscaling_k.Common.{
  List, String, [], ap, false, inl, inr, none, string_Eq, true, ◌++◌, ◌∷◌, ◌≡◌, ◌⊎◌,
}
use predictive_autoscaling_k.Common.Int.{ℤ}

-- An event of the log, with what was in the log before it.
abbrev pub Seen : (Event → List Event → Type 0) → List Event → Type 0
Seen Is log =
    (newer : List Event) × (older : List Event) × (e : Event) × (log ≡ newer ++ (e ∷ older))
    × Is e older

pub Seen-newest :
    (Is : Event → List Event → Type 0) (Kept : List Event → Type 0) (e : Event) (log : List Event)
    (newest : IsNewest Kept e log)
    → Is e newest.0
    → Seen Is log
Seen-newest Is Kept e log (older, same, kept) h = ([], older, e, same, h)

pub Seen-IsLasting : (Is : Event → List Event → Type 0) → IsLasting (Seen Is)
Seen-IsLasting Is e log harmless (newer, older, found, same, h) =
    (e ∷ newer, older, found, ap (λ l. e ∷ l) same, h)

abbrev pub path_of : Event → String
path_of (answered request content) = request.path
path_of (refused request) = request.path
path_of (ran args code) = ""

-- The commands and the paths, written out.
abbrev kubectl_get : String → List String
kubectl_get node_name = "kubectl" ∷ "get" ∷ "node" ∷ node_name ∷ []

abbrev kubectl_delete : String → List String
kubectl_delete node_name = "kubectl" ∷ "delete" ∷ "node" ∷ node_name ∷ []

abbrev kubectl_drain : String → String → String → List String
kubectl_drain node_name limit period =
    "kubectl"
    ∷ "drain"
    ∷ node_name
    ∷ "--ignore-daemonsets"
    ∷ "--delete-emptydir-data"
    ∷ "--force"
    ∷ ("--timeout=" <> limit)
    ∷ ("--grace-period=" <> period)
    ∷ []

module _ (repr : Json → String) (config : Config) where
  -- `kubectl get node` failed, for whatever reason; the script takes the node to be out of the cluster.
  abbrev pub LookupFailed : Event → List Event → Type 0
  LookupFailed e older =
      (code : ℤ) × (e ≡ ran (kubectl_get config.target_node_name) code) × (is_success code ≡ false)

  abbrev pub IsDrained : Event → List Event → Type 0
  IsDrained e older =
      (code : ℤ) × (e
        ≡ ran
            (kubectl_drain config.target_node_name config.kubectl_drain_timeout
              config.kubectl_grace_period)
            code)
      × (is_success code ≡ true)

  -- The node was deleted after it had been drained.
  abbrev pub IsDeleted : Event → List Event → Type 0
  IsDeleted e older =
      (code : ℤ) × (e ≡ ran (kubectl_delete config.target_node_name) code)
      × (is_success code ≡ true)
      × Seen IsDrained older

  -- The lookup of the node failed, or the node was drained and then deleted.
  abbrev pub NodeIsDone : List Event → Type 0
  NodeIsDone log = Seen LookupFailed log ⊎ Seen IsDeleted log

  -- The load balancer was read, and the answer has no list of instances with this one in it.
  abbrev pub IsDetached : String → Event → List Event → Type 0
  IsDetached instance_id e older =
      (content : Json) × (e
        ≡ answered
            (record {
              method = http_get;
              path = "/load-balancers/" <> config.target_load_balancer_id;
              body = none;
            })
            content)
      × ¬ BalancerLists repr instance_id content

  -- The VMs were read, and this is the id of the only one that is named after the node.
  abbrev pub IsMatched : String → Event → List Event → Type 0
  IsMatched instance_id e older =
      (content : Json) × (instances : List Json) × (m : Members) × (e
        ≡ answered (record { method = http_get; path = list_path; body = none }) content)
      × AreEntries repr config content instances
      × IsOnly repr config m instances
      × (instance_id ≡ text_at repr "id" m)

  -- A request to destroy: only for the VM of the node, when the node is done with and the VM was read to be
  -- off the load balancer.
  abbrev pub IsAllowed : Event → List Event → Type 0
  IsAllowed e older =
      is_harmless e ≡ false
      → (instance_id : String) × (path_of e ≡ "/instances/" <> instance_id)
        × NodeIsDone older
        × Seen (IsDetached instance_id) older
        × Seen (IsMatched instance_id) older

  unfoldable pub IsOrdered : List Event → Type 0
  IsOrdered [] = Unit
  IsOrdered (e ∷ older) = IsAllowed e older × IsOrdered older

  -- The request to destroy was answered, for the VM of the node.
  abbrev pub IsDestroyed : String → Event → List Event → Type 0
  IsDestroyed instance_id e older =
      (content : Json) × (e
        ≡ answered
            (record { method = http_delete; path = "/instances/" <> instance_id; body = none })
            content)
      × Seen (IsMatched instance_id) older

  -- The list of the instances was read without the instance, after it had been destroyed.
  abbrev pub IsGone : String → Event → List Event → Type 0
  IsGone instance_id e older =
      (content : Json) × (e
        ≡ answered (record { method = http_get; path = list_path; body = none }) content)
      × ¬ ListsVm repr instance_id content
      × Seen (IsDestroyed instance_id) older

  pub IsOrdered-IsLasting : IsLasting IsOrdered
  unfolding IsOrdered
  IsOrdered-IsLasting e log harmless h = ((λ harmful. absurd cc), h)

  pub NodeIsDone-IsLasting : IsLasting NodeIsDone
  NodeIsDone-IsLasting e log harmless (inl h) = inl (Seen-IsLasting LookupFailed e log harmless h)
  NodeIsDone-IsLasting e log harmless (inr h) = inr (Seen-IsLasting IsDeleted e log harmless h)
