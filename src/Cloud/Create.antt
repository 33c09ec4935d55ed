-- ===== src/Cloud/Create.antt =====
-- linux-script/create-vultr-worker.py: a VM is created and waited for. What the script prints is left out.
pub mod Run
pub mod Readiness
pub mod Payload
pub mod Completion
mod Tests
use Prim.Native.String.{◌++◌ as ◌<>◌}
use predictive_autoscaling_k.Cloud.{
  Json, Members, Outcome, and_then, array, array_of, bad_integer, boolean, member, missing_key_file,
  missing_variable, no_member, number, object, raised, returned, script_error, string,
}
use predictive_autoscaling_k.Cloud.Environment.{
  IntVariable, get_bool_env, get_int_env, integer, not_integer, or_default, require_env, unset,
}
use predictive_autoscaling_k.Common.{
  Bool, List, Option, String, [], false, if◌then◌else◌, none, not, some, string_Eq, ◌&&◌, ◌==◌, ◌∷◌,
}
use predictive_autoscaling_k.Common.Int.{pos, ℤ}

pub record Config : Type 0 where
  pub node_name : String
  pub vultr_api_key : String
  pub vultr_region : String
  pub vultr_plan : String
  pub vultr_os_id : ℤ
  pub vultr_api_base : String
  pub flannel_iface_default : String
  pub wait_timeout_seconds : ℤ
  pub wait_interval_seconds : ℤ
  pub debug_vultr_create : Bool

-- The variables that the script reads, without the blanks around them (the prefixes and the user data as
-- they are); a list as `split(",")` and `strip` leave it; the key file's text, if the file is there.
pub record Environ : Type 0 where
  pub os_id_variable : IntVariable
  pub api_key_variable : Option String
  pub region_variable : Option String
  pub plan_variable : Option String
  pub api_base_variable : Option String
  pub flannel_variable : Option String
  pub timeout_variable : IntVariable
  pub interval_variable : IntVariable
  pub debug_variable : Option String
  pub label_prefix : String
  pub hostname_prefix : String
  pub firewall_group_id : String
  pub ssh_key_items : List String
  pub tag_items : List String
  pub user_data : String
  pub script_id : String
  pub inline_key : String
  pub key_file : String
  pub key_file_text : Option String
  pub vpc_id : String
  pub result_file : String

-- `int(require_env("VULTR_OS_ID"))`; an empty variable counts as `unset`.
unfoldable pub require_int_env : IntVariable → Outcome ℤ
require_int_env unset = raised (script_error missing_variable)
require_int_env not_integer = raised (script_error bad_integer)
require_int_env (integer n) = returned n

unfoldable pub load_config : Environ → String → Outcome Config
unfolding require_int_env require_env get_int_env get_bool_env
load_config env node = and_then (require_int_env env.os_id_variable) λ os_id.
    and_then (require_env env.api_key_variable) λ api_key.
      and_then (require_env env.region_variable) λ region.
        and_then (require_env env.plan_variable) λ plan.
          and_then (get_int_env env.timeout_variable (pos 900)) λ timeout.
            and_then (get_int_env env.interval_variable (pos 5)) λ interval.
              and_then (get_bool_env env.debug_variable) λ debug. returned (record {
                node_name = node;
                vultr_api_key = api_key;
                vultr_region = region;
                vultr_plan = plan;
                vultr_os_id = os_id;
                vultr_api_base = or_default env.api_base_variable "https://api.vultr.com/v2";
                flannel_iface_default = or_default env.flannel_variable "enp8s0";
                wait_timeout_seconds = timeout;
                wait_interval_seconds = interval;
                debug_vultr_create = debug;
              })

unfoldable pub csv_env : List String → List String
csv_env [] = []
csv_env (item ∷ more) = let rest = csv_env more in if item == "" then rest else item ∷ rest

unfoldable pub read_root_public_key : Environ → Outcome String
read_root_public_key env =
    if not (env.inline_key == "")
    then returned env.inline_key
    else if env.key_file == ""
    then returned ""
    else elim env.key_file_text [
      | some key ↦ returned key
      | none ↦ raised (script_error missing_key_file)
    ]

unfoldable pub build_root_cloud_init : String → String
build_root_cloud_init public_key =
    "#cloud-config\ndisable_root: false\nssh_pwauth: false\nusers:\n  - name: root\n    lock_passwd: true\n    ssh_authorized_keys:\n      - "
    <> public_key

-- `payload[key] = value` for a new key.
abbrev pub put_member : String → Json → Members → Members
put_member key value no_member = member key value no_member
put_member key value (member k v m) = member k v (put_member key value m)

-- `if value: payload[key] = …`
abbrev pub put_text : String → String → String → Members → Members
put_text key value written m = if value == "" then m else put_member key (string written) m

abbrev pub put_list : String → List String → Members → Members
put_list key [] m = m
put_list key (item ∷ items) m = put_member key (array (array_of (item ∷ items))) m

-- `encode` is base64, `show` is `str` of an integer.
module _ (encode : String → String) (show : ℤ → String) where
  unfoldable pub build_payload : Environ → Config → Outcome Json
  unfolding csv_env read_root_public_key build_root_cloud_init
  build_payload env config = and_then (read_root_public_key env) λ root_public_key.
      let payload = member "region" (string config.vultr_region) (
        member "plan" (string config.vultr_plan) (
          member "os_id" (number (show config.vultr_os_id)) (
            member "label" (string (env.label_prefix <> config.node_name)) (
              member "hostname" (string (env.hostname_prefix <> config.node_name))
                (member "activation_email" (boolean false) no_member))))) in
      let user_data =
        if env.user_data == "" && not (root_public_key == "")
        then build_root_cloud_init root_public_key
        else env.user_data in
      returned (
        object (
          put_text "script_id" env.script_id env.script_id (
            put_text "user_data" user_data (encode user_data) (
              put_list "tags" (csv_env env.tag_items) (
                put_list "ssh_key_ids" (csv_env env.ssh_key_items) (
                  put_text "firewall_group_id" env.firewall_group_id env.firewall_group_id
                    payload))))))
