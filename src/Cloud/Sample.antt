-- ===== src/Cloud/Sample.antt =====
-- A small host for the tests: its world is its clock. A VM is attached to the load balancer in the first
-- seven seconds and listed in the first twelve, and every command succeeds.
use predictive_autoscaling_k.Cloud.{
  Json, array, array_of, element, member, no_element, no_member, null, object, object_with, string,
}
use predictive_autoscaling_k.Cloud.Clock.{IsSteady}
use predictive_autoscaling_k.Cloud.Effects.{Host, Method, State, body_read, http_get, seconds}
use predictive_autoscaling_k.Cloud.Environment.{list_path}
use predictive_autoscaling_k.Cloud.Promptness.{IsPrompt}
use predictive_autoscaling_k.Common.{
  Bool, String, [], arith, if◌then◌else◌, ltb, some, string_Eq, ℕ, ◌+◌, ◌==◌, ◌∷◌,
}
use predictive_autoscaling_k.Common.Int.{pos}

abbrev pub sample_vm : String
sample_vm = "vm-1"

abbrev vm_entry : Json
vm_entry = object (
    member "id" (string sample_vm) (
      member "label" (string "worker-5")
        (member "main_ip" (string "10.0.0.5") (member "region" (string "sgp") no_member))))

abbrev list_at : Bool → Json
list_at present_still =
    object_with "instances"
      (array (element null (if present_still then element vm_entry no_element else no_element)))

abbrev pub balancer_at : Bool → Json
balancer_at attached = object_with "load_balancer" (
    object (
      member "region" (string "sgp") (
        member "instances"
          (array (array_of (if attached then "vm-0" ∷ sample_vm ∷ [] else "vm-0" ∷ [])))
          no_member)))

abbrev pub detached_by : ℕ
detached_by = seconds 7

abbrev respond_at : Method → String → ℕ → Json
respond_at http_get path now =
    if path == list_path then list_at (ltb now (seconds 12)) else balancer_at (ltb now detached_by)
respond_at _ path now = null

abbrev pub sample_host : Host ℕ
sample_host = record {
  clock = λ now. now;
  look = λ now. now;
  pause = λ n now. now + n;
  respond = λ request now. (body_read (respond_at request.method request.path now), now);
  execute = λ args now. (some (pos 0), now);
  repr = λ content. "";
}

abbrev pub sample_start : State ℕ
sample_start = record { world = 0; log = [] }

pub sample_host-IsSteady : IsSteady sample_host
sample_host-IsSteady = record {
  looks = λ w. omega arith;
  pauses = λ n w. omega arith;
  responds = λ request w. omega arith;
  executes = λ args w. omega arith;
}

pub sample_host-IsPrompt : IsPrompt sample_host 0
sample_host-IsPrompt = record {
  soon_looked = λ w. omega arith;
  soon_awake = λ n w. omega arith;
  soon_answered = λ request w. omega arith;
}
