-- ===== src/Cloud/Create/Payload.antt =====
-- linux-script/create-vultr-worker.py: what the payload of `build_payload` asks for.
use Prim.Native.String.{◌++◌ as ◌<>◌}
-- The payload asks for a VM as the configuration has it, under the node's name after the two prefixes.
use predictive_autoscaling_k.Cloud.{
  Json, Members, array, array_of, boolean, member, member_of, no_member, null, number, object,
  returned, string,
}
use predictive_autoscaling_k.Cloud.Create.{
  Config, Environ, build_payload, build_root_cloud_init, csv_env, put_list, put_member, put_text,
  read_root_public_key,
}
use predictive_autoscaling_k.Cloud.Triples.{and_then-returned, returned-injective}
use predictive_autoscaling_k.Common.{
  Bool-cases, List, String, [], false, if◌then◌else◌, inl, inr, not, refl, string_Eq, sym, ◌&&◌,
  ◌==◌, ◌∙◌, ◌∷◌, ◌≡◌,
}
use predictive_autoscaling_k.Common.Int.{ℤ}

abbrev pub IsOrder : (ℤ → String) → Environ → Config → Json → Type 0
IsOrder show env config payload =
    (m : Members) × (payload ≡ object m)
    × (member_of "region" null m ≡ string config.vultr_region)
    × (member_of "plan" null m ≡ string config.vultr_plan)
    × (member_of "os_id" null m ≡ number (show config.vultr_os_id))
    × (member_of "label" null m ≡ string (env.label_prefix <> config.node_name))
    × (member_of "hostname" null m ≡ string (env.hostname_prefix <> config.node_name))

put_member-other :
    (k key : String) (value default : Json) (m : Members)
    → (key == k) ≡ false
    → member_of k default (put_member key value m) ≡ member_of k default m
put_member-other k key value default no_member h = rw h refl
put_member-other k key value default (member j v m) h = elim (Bool-cases (j == k)) [
  | inl same ↦ rw same refl
  | inr other_key ↦ rw other_key (put_member-other k key value default m h)
]

put_text-other :
    (k key text written : String) (default : Json) (m : Members)
    → (key == k) ≡ false
    → member_of k default (put_text key text written m) ≡ member_of k default m
put_text-other k key text written default m h = elim (Bool-cases (text == "")) [
  | inl empty ↦ rw empty refl
  | inr some_text ↦ rw some_text (put_member-other k key (string written) default m h)
]

put_list-other :
    (k key : String) (items : List String) (default : Json) (m : Members)
    → (key == k) ≡ false
    → member_of k default (put_list key items m) ≡ member_of k default m
put_list-other k key [] default m h = refl
put_list-other k key (item ∷ items) default m h =
    put_member-other k key (array (array_of (item ∷ items))) default m h

-- The optional members leave a member under another key as it is.
optional-other :
    (k firewall text encoded script : String) (keys tags : List String) (default : Json)
    (m : Members)
    → ("script_id" == k) ≡ false
    → ("user_data" == k) ≡ false
    → ("tags" == k) ≡ false
    → ("ssh_key_ids" == k) ≡ false
    → ("firewall_group_id" == k) ≡ false
    → member_of k default (
        put_text "script_id" script script (
          put_text "user_data" text encoded (
            put_list "tags" tags
              (put_list "ssh_key_ids" keys (put_text "firewall_group_id" firewall firewall m)))))
      ≡ member_of k default m
optional-other k firewall text encoded script keys tags default m a b c d e =
    put_text-other k "script_id" script script default _ a
    ∙ put_text-other k "user_data" text encoded default _ b
    ∙ put_list-other k "tags" tags default _ c
    ∙ put_list-other k "ssh_key_ids" keys default _ d
    ∙ put_text-other k "firewall_group_id" firewall firewall default m e

pub build_payload-IsOrder :
    (encode : String → String) (show : ℤ → String) (env : Environ) (config : Config)
    (payload : Json)
    → build_payload encode show env config ≡ returned payload
    → IsOrder show env config payload
unfolding build_payload
build_payload-IsOrder encode show env config payload h =
    let (key, _, made) = and_then-returned (read_root_public_key env) _ payload h in
    let text =
      if env.user_data == "" && not (key == "") then build_root_cloud_init key else env.user_data in
    let fixed : Members = member "region" (string config.vultr_region) (
      member "plan" (string config.vultr_plan) (
        member "os_id" (number (show config.vultr_os_id)) (
          member "label" (string (env.label_prefix <> config.node_name)) (
            member "hostname" (string (env.hostname_prefix <> config.node_name))
              (member "activation_email" (boolean false) no_member))))) in
    let keep = λ (k : String).
      optional-other k env.firewall_group_id text (encode text) env.script_id
        (csv_env env.ssh_key_items) (csv_env env.tag_items) null fixed in
    (
      _,
      sym (returned-injective _ payload made),
      keep "region" refl refl refl refl refl,
      keep "plan" refl refl refl refl refl,
      keep "os_id" refl refl refl refl refl,
      keep "label" refl refl refl refl refl,
      keep "hostname" refl refl refl refl refl,
    )
