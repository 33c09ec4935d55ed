-- ===== src/Cloud.antt =====
-- linux-script/*.py: the worker scripts. Here are the JSON values that the Vultr API answers with, as
-- `json.loads` makes them, and what the scripts do with one: `get`, `str`, `if` and `for`.
pub mod Effects
pub mod Polling
pub mod Environment
pub mod Triples
pub mod Calls
pub mod Clock
pub mod Promptness
pub mod Sample
pub mod Teardown
pub mod Answers
pub mod Attach
pub mod Create
pub mod EndToEnd
use Prim.Native.String.{len}
use text.Mathlib.Text.{get?}
use predictive_autoscaling_k.Common.{
  Bool, List, String, [], false, if◌then◌else◌, map, none, not, range_from, some, string_Eq, true,
  ◌+◌, ◌==◌, ◌||◌, ◌∷◌,
}
use predictive_autoscaling_k.Common.Int.{ℤ}

mutual
  -- A number has the text that `str` makes of it.
  pub data Json : Type 0 where
    null : Json
    boolean : Bool → Json
    number string : String → Json
    array : Elements → Json
    object : Members → Json

  pub data Elements : Type 0 where
    no_element : Elements
    element : Json → Elements → Elements

  pub data Members : Type 0 where
    no_member : Members
    member : String → Json → Members → Members

-- Why a script raises its own exception, `WorkerTeardownError` or `AttachVMError`.
pub data Reason : Type 0 where
  missing_variable bad_boolean bad_integer missing_command : Reason
  api_failed no_instance several_instances unsupported_shape incomplete_record : Reason
  empty_balancer region_mismatch timed_out empty_response missing_key_file bad_host_mode : Reason

-- `command_failed` is `CalledProcessError`, `command_not_found` is `FileNotFoundError`. The last is of the
-- model: a loop that ran out of its fuel.
pub data Failure : Type 0 where
  script_error : Reason → Failure
  command_failed : ℤ → Failure
  command_not_found attribute_error type_error value_error : Failure
  no_fuel : Failure

pub data Outcome {ℓ} (A : Type ℓ) : Type ℓ where
  returned : A → Outcome A
  raised : Failure → Outcome A

abbrev pub and_then {ℓ κ} :
    {Found : Type ℓ} {Made : Type κ} → Outcome Found → (Found → Outcome Made) → Outcome Made
and_then outcome make = elim outcome [ returned found ↦ make found | raised why ↦ raised why ]

abbrev pub elements_of : Elements → List Json
elements_of no_element = []
elements_of (element x xs) = x ∷ elements_of xs

abbrev keys_of : Members → List Json
keys_of no_member = []
keys_of (member k v m) = string k ∷ keys_of m

-- `x.get(key, default)` on a dict.
abbrev pub member_of : String → Json → Members → Json
member_of key default no_member = default
member_of key default (member k v m) = if k == key then v else member_of key default m

-- `x.get(key, default)`: only a dict has the method.
abbrev pub get_member : String → Json → Json → Outcome Json
get_member key default (object m) = returned (member_of key default m)
get_member key default _ = raised attribute_error

-- The truth of a value.
abbrev pub is_true : Json → Bool
is_true null = false
is_true (boolean b) = b
is_true (number n) = not (n == "0" || n == "0.0" || n == "-0.0")
is_true (string s) = not (s == "")
is_true (array no_element) = false
is_true (array (element x xs)) = true
is_true (object no_member) = false
is_true (object (member k v m)) = true

-- The characters of a text, each as a text.
abbrev characters : String → List Json
characters s =
    map (λ i. elim (get? s i (i + 1)) [ none ↦ null | some c ↦ string c ]) (range_from 0 (len s))

-- What a `for` loop runs over.
abbrev pub iterate : Json → Outcome (List Json)
iterate (array xs) = returned (elements_of xs)
iterate (object m) = returned (keys_of m)
iterate (string s) = returned (characters s)
iterate _ = raised type_error

-- `if not isinstance(value, list): raise`, and the same for a dict.
abbrev pub as_list : Json → Outcome (List Json)
as_list (array xs) = returned (elements_of xs)
as_list _ = raised (script_error unsupported_shape)

abbrev pub as_object : Json → Outcome Members
as_object (object m) = returned m
as_object _ = raised (script_error unsupported_shape)

-- An array of texts.
abbrev pub array_of : List String → Elements
array_of [] = no_element
array_of (s ∷ ss) = element (string s) (array_of ss)

abbrev pub object_with : String → Json → Json
object_with key value = object (member key value no_member)

-- `name in names`
abbrev pub is_in : String → List String → Bool
is_in name [] = false
is_in name (n ∷ names) = name == n || is_in name names

-- `str` on a list or a dict is the parameter `repr`.
module _ (repr : Json → String) where
  abbrev pub str : Json → String
  str null = "None"
  str (boolean b) = if b then "True" else "False"
  str (number n) = n
  str (string s) = s
  str x = repr x

  -- `str(x.get(key, ""))`
  abbrev pub text_member : String → Members → String
  text_member key m = str (member_of key (string "") m)

  -- `[str(x) for x in ids if x]`
  abbrev pub texts_of : List Json → List String
  texts_of [] = []
  texts_of (x ∷ xs) = if is_true x then str x ∷ texts_of xs else texts_of xs
