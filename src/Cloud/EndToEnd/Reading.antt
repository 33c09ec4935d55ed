-- ===== src/Cloud/EndToEnd/Reading.antt =====
-- What linux-script/create-worker-e2e.py takes out of the result file, in terms of its JSON alone.
use mathlib.Core.Path.{subst}
-- The host that the mode asks for.
use predictive_autoscaling_k.Cloud.{
  Json, Members, array, bad_host_mode, boolean, incomplete_record, null, number, object, raised,
  returned, script_error, string,
}
use predictive_autoscaling_k.Cloud.Answers.{text_at}
use predictive_autoscaling_k.Cloud.EndToEnd.{addresses_of, ssh_target_host}
use predictive_autoscaling_k.Cloud.Triples.{returned-injective}
use predictive_autoscaling_k.Common.{
  ==_iff, Bool-cases, String, arith, inl, inr, refl, string_Eq, sym, ◌==◌, ◌||◌, ◌≡◌, ◌⊎◌,
}

abbrev pub IsTarget : String → String × String → String → Type 0
IsTarget mode (public_ip, private_ip) target_host =
    ((mode ≡ "public") × (target_host ≡ public_ip))
    ⊎ ((mode ≡ "private") × (target_host ≡ private_ip))

-- The dict has these two addresses, and neither is empty.
abbrev pub HasAddresses : (Json → String) → Members → String × String → Type 0
HasAddresses repr m (public_ip, private_ip) =
    (public_ip ≡ text_at repr "public_ip" m)
    × (private_ip ≡ text_at repr "private_ip" m)
    × ¬ (public_ip ≡ "")
    × ¬ (private_ip ≡ "")

pub ssh_target_host-IsTarget :
    (mode : String) (addresses : String × String) (target_host : String)
    → ssh_target_host mode addresses ≡ returned target_host
    → IsTarget mode addresses target_host
unfolding ssh_target_host
ssh_target_host-IsTarget mode (public_ip, private_ip) target_host h =
    elim (Bool-cases (mode == "public")) [
      | inl it ↦ inl (
        ground (arith, it, ==_iff mode "public"),
        sym (returned-injective public_ip target_host (rw it at h)),
      )
      | inr not_it ↦ elim (Bool-cases (mode == "private")) [
        | inl it ↦ inr (
          ground (arith, it, ==_iff mode "private"),
          sym (returned-injective private_ip target_host (rw (not_it, it) at h)),
        )
        | inr neither ↦
            let failed : raised (script_error bad_host_mode) ≡ returned target_host =
              rw (not_it, neither) at h in
            absurd cc
      ]
    ]

pub addresses_of-HasAddresses :
    (repr : Json → String) (content : Json) (addresses : String × String)
    → addresses_of repr content ≡ returned addresses
    → (m : Members) × (content ≡ object m) × HasAddresses repr m addresses
unfolding addresses_of
addresses_of-HasAddresses repr (object m) addresses h =
    let public_ip = text_at repr "public_ip" m in
    let private_ip = text_at repr "private_ip" m in
    elim (Bool-cases (public_ip == "" || private_ip == "")) [
      | inl empty ↦
          let failed : raised (script_error incomplete_record) ≡ returned addresses =
            rw empty at h in
          absurd cc
      | inr full ↦
          let same : (public_ip, private_ip) ≡ addresses =
            returned-injective (public_ip, private_ip) addresses (rw full at h) in
          (
            m,
            refl,
            subst (HasAddresses repr m) same (
              refl,
              refl,
              (λ e. ground (arith, full, e, ==_iff public_ip "")),
              (λ e. ground (arith, full, e, ==_iff private_ip "")),
            ),
          )
    ]
addresses_of-HasAddresses repr null addresses h = absurd cc
addresses_of-HasAddresses repr (boolean b) addresses h = absurd cc
addresses_of-HasAddresses repr (number n) addresses h = absurd cc
addresses_of-HasAddresses repr (string s) addresses h = absurd cc
addresses_of-HasAddresses repr (array xs) addresses h = absurd cc
