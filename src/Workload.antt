-- ===== src/Workload.antt =====
-- custom-load-generator/workload.py: the request classes and the planner that turns the n-th request
-- of a second into a request of one class. The classes' names are texts; the counts are numbers.
pub mod Planner
mod Tests
use Prim.Native.String.{◌++◌ as str_append}
use predictive_autoscaling_k.Common.{
  Bool, List, Option, String, [], count_where, false, if◌then◌else◌, ltb, none, not, some,
  string_Eq, true, zip, ℕ, ◌+◌, ◌==◌, ◌||◌, ◌∷◌,
}
use predictive_autoscaling_k.Common.Dict.{Dict, lookup}
use predictive_autoscaling_k.Common.Int.{ℤ}

abbrev pub default_request_classes : List String
default_request_classes =
    "directory" ∷ "image" ∷ "html" ∷ "other" ∷ "audio" ∷ "java" ∷ "video" ∷ "compressed" ∷ "dynamic"
    ∷ []

abbrev pub request_class_columns : Dict String String
request_class_columns =
    ("html", "type_HTML")
    ∷ ("image", "type_IMAGE")
    ∷ ("audio", "type_AUDIO")
    ∷ ("video", "type_VIDEO")
    ∷ ("java", "type_JAVA")
    ∷ ("dynamic", "type_DYNAMIC")
    ∷ ("compressed", "type_COMPRESSED")
    ∷ ("directory", "type_DIRECTORY")
    ∷ ("other", "type_OTHER")
    ∷ []

pub record PreparedRequest : Type 0 where
  pub method : String
  pub path : String
  pub report_url : String
  pub json_body : Option (Dict String String)

pub record WorkloadConfig : Type 0 where
  pub seed : ℤ
  pub demand_base_path : String
  pub request_classes : List String

pub data WorkloadError : Type 0 where
  no_request_class duplicate_classes unsupported_classes no_configured_class : WorkloadError

pub data Parsed {ℓ} (A : Type ℓ) : Type ℓ where
  ok : A → Parsed A
  err : WorkloadError → Parsed A

-- `parsed.count(c)`
abbrev pub occurrences : String → List String → ℕ
occurrences c = count_where (λ s. s == c)

unfoldable pub has_any : (String → Bool) → List String → Bool
has_any p [] = false
has_any p (x ∷ xs) = p x || has_any p xs

unfoldable pub is_supported : String → Bool
is_supported c = elim (lookup c request_class_columns) [ none ↦ false | some _ ↦ true ]

unfoldable pub has_duplicates : List String → Bool
unfolding has_any
has_duplicates cs = has_any (λ s. ltb 1 (occurrences s cs)) cs

unfoldable pub has_unknown : List String → Bool
unfolding has_any is_supported
has_unknown cs = has_any (λ s. not (is_supported s)) cs

-- The checks of `_parse_request_classes`, on the segments that are left of `value.split(",")` once they
-- are stripped, lower-cased and the blank ones dropped.
unfoldable pub check_request_classes : List String → Parsed (List String)
check_request_classes [] = err no_request_class
check_request_classes (c ∷ cs) =
    if has_duplicates (c ∷ cs)
    then err duplicate_classes
    else if has_unknown (c ∷ cs)
    then err unsupported_classes
    else ok (c ∷ cs)

unfoldable pub parse_request_classes : Option (List String) → Parsed (List String)
unfolding check_request_classes
parse_request_classes none = ok default_request_classes
parse_request_classes (some segments) = check_request_classes segments

-- `WorkloadPlanner.__init__`
unfoldable pub init_planner : WorkloadConfig → Parsed WorkloadConfig
init_planner c = elim c.request_classes [ [] ↦ err no_configured_class | _ ∷ _ ↦ ok c ]

-- The loop of `request_class_for_index`; `none` is the IndexError after it.
unfoldable pub find_class : ℕ → ℕ → List (String × ℕ) → Option String
find_class running_total index [] = none
find_class running_total index ((request_class, request_count) ∷ rest) =
    if ltb index (running_total + request_count)
    then some request_class
    else find_class (running_total + request_count) index rest

unfoldable pub request_class_for_index : WorkloadConfig → List ℕ → ℕ → Option String
unfolding find_class
request_class_for_index c request_class_counts index =
    find_class 0 index (zip c.request_classes request_class_counts)

unfoldable pub build_request : WorkloadConfig → String → PreparedRequest
build_request c request_class =
    let path = str_append c.demand_base_path (str_append "/" request_class) in
    record { method = "GET"; path = path; report_url = path; json_body = none }
