-- ===== src/Cloud/Teardown/Matching.antt =====
-- `parse_instance_by_node_name`: which instance it returns.
use Prim.Native.String.{◌++◌ as ◌<>◌}
use predictive_autoscaling_k.Cloud.{
  Json, Members, array, boolean, elements_of, is_in, is_true, member_of, null, number, object,
  returned, string,
}
use predictive_autoscaling_k.Cloud.Answers.{text_at}
use predictive_autoscaling_k.Cloud.Teardown.{
  Config, InstanceMatch, candidates_of, expected_names, instances_of, is_candidate, listed_under,
  only_match, parse_instance_by_node_name,
}
use predictive_autoscaling_k.Cloud.Triples.{and_then-returned, returned-injective}
use predictive_autoscaling_k.Common.{
  ==_iff, All, Bool-cases, List, String, [], ap, arith, false, inl, inr, refl, string_Eq, sym, true,
  ◌++◌, ◌↔◌, ◌∷◌, ◌≡◌, ◌⊎◌,
}

module _ (repr : Json → String) (config : Config) where
  -- The text is the node's name, or the name after the prefix, where there is one.
  abbrev pub GoesBy : String → String → Type 0
  GoesBy prefix text =
      (text ≡ config.target_node_name)
      ⊎ (¬ (prefix ≡ "") × (text ≡ prefix <> config.target_node_name))

  -- The label or the host name of the VM is the node's.
  abbrev pub IsNamed : Members → Type 0
  IsNamed m =
      GoesBy config.vultr_label_prefix (text_at repr "label" m)
      ⊎ GoesBy config.vultr_hostname_prefix (text_at repr "hostname" m)

  expected_names-GoesBy :
      (prefix text : String)
      → (is_in text (expected_names prefix config.target_node_name) ≡ true) ↔ GoesBy prefix text
  expected_names-GoesBy prefix text = ground (
    arith,
    ==_iff prefix "",
    ==_iff text config.target_node_name,
    ==_iff text (prefix <> config.target_node_name),
  )

  is_candidate-IsNamed : (m : Members) → (is_candidate repr config m ≡ true) ↔ IsNamed m
  unfolding is_candidate
  is_candidate-IsNamed m =
      let by_label = expected_names-GoesBy config.vultr_label_prefix (text_at repr "label" m) in
      let by_hostname =
        expected_names-GoesBy config.vultr_hostname_prefix (text_at repr "hostname" m) in
      ground (arith, by_label, by_hostname)

  other-IsNamed : (m : Members) → is_candidate repr config m ≡ false → ¬ IsNamed m
  other-IsNamed m no_it named = ground (arith, no_it, (is_candidate-IsNamed m).1 named)

  -- The value under `instances`, or the dict itself where that is no list.
  abbrev ListedUnder : Json → Members → List Json → Type 0
  ListedUnder (array xs) m instances = instances ≡ elements_of xs
  ListedUnder _ m instances = instances ≡ object m ∷ []

  -- The entries of an answer: those of the list that it is, or has, or it is an entry itself.
  abbrev pub AreEntries : Json → List Json → Type 0
  AreEntries (array xs) instances = instances ≡ elements_of xs
  AreEntries (object m) instances = ListedUnder (member_of "instances" null m) m instances
  AreEntries _ instances = ⊥

  -- An entry of the list that does not go by the node's name.
  abbrev pub IsOther : Json → Type 0
  IsOther (object m) = ¬ IsNamed m
  IsOther _ = Unit {0}

  All-candidates_of :
      (instances : List Json) → candidates_of repr config instances ≡ [] → All IsOther instances
  unfolding candidates_of
  All-candidates_of [] h = tt
  All-candidates_of (object m ∷ instances) h = elim (Bool-cases (is_candidate repr config m)) [
    | inl yes_it ↦ absurd (ground (arith, h, yes_it))
    | inr no_it ↦ (other-IsNamed m no_it, All-candidates_of instances (ground (arith, h, no_it)))
  ]
  All-candidates_of (null ∷ instances) h = (tt, All-candidates_of instances h)
  All-candidates_of (boolean b ∷ instances) h = (tt, All-candidates_of instances h)
  All-candidates_of (number n ∷ instances) h = (tt, All-candidates_of instances h)
  All-candidates_of (string s ∷ instances) h = (tt, All-candidates_of instances h)
  All-candidates_of (array xs ∷ instances) h = (tt, All-candidates_of instances h)

  -- One entry of the list goes by the node's name, and no other.
  abbrev pub IsOnly : Members → List Json → Type 0
  IsOnly m instances =
      (front : List Json) × (back : List Json) × (instances ≡ front ++ (object m ∷ back))
      × IsNamed m
      × All IsOther front
      × All IsOther back

  IsOnly-cons :
      (m : Members) (x : Json) (instances : List Json)
      → IsOther x
      → IsOnly m instances
      → IsOnly m (x ∷ instances)
  IsOnly-cons m x instances other_one (front, back, same, it, before, after) =
      (x ∷ front, back, ap (λ l. x ∷ l) same, it, (other_one, before), after)

  candidates_of-IsOnly :
      (m : Members) (instances : List Json)
      → candidates_of repr config instances ≡ m ∷ []
      → IsOnly m instances
  unfolding candidates_of
  candidates_of-IsOnly m [] h = absurd cc
  candidates_of-IsOnly m (object n ∷ instances) h = elim (Bool-cases (is_candidate repr config n)) [
    | inl it ↦
        let both : n ∷ candidates_of repr config instances ≡ m ∷ [] = ground (arith, h, it) in
        let same : n ≡ m = cc in
        let none_left : candidates_of repr config instances ≡ [] = cc in
        (
          [],
          instances,
          ap (λ z. object z ∷ instances) same,
          (is_candidate-IsNamed m).0 (ground (arith, it, same)),
          tt,
          All-candidates_of instances none_left,
        )
    | inr no_it ↦
        IsOnly-cons m (object n) instances (other-IsNamed n no_it)
          (candidates_of-IsOnly m instances (ground (arith, h, no_it)))
  ]
  candidates_of-IsOnly m (null ∷ instances) h =
      IsOnly-cons m null instances tt (candidates_of-IsOnly m instances h)
  candidates_of-IsOnly m (boolean b ∷ instances) h =
      IsOnly-cons m (boolean b) instances tt (candidates_of-IsOnly m instances h)
  candidates_of-IsOnly m (number n ∷ instances) h =
      IsOnly-cons m (number n) instances tt (candidates_of-IsOnly m instances h)
  candidates_of-IsOnly m (string s ∷ instances) h =
      IsOnly-cons m (string s) instances tt (candidates_of-IsOnly m instances h)
  candidates_of-IsOnly m (array xs ∷ instances) h =
      IsOnly-cons m (array xs) instances tt (candidates_of-IsOnly m instances h)

  only_match-only :
      (found : InstanceMatch) (candidates : List Members)
      → only_match repr candidates ≡ returned found
      → (m : Members) × (candidates ≡ m ∷ []) × (found.instance_id ≡ text_at repr "id" m)
  unfolding only_match
  only_match-only found [] h = absurd cc
  only_match-only found (m ∷ []) h =
      (m, refl, ap (λ z. z.instance_id) (sym (returned-injective _ found h)))
  only_match-only found (m ∷ n ∷ more) h = absurd cc

  listed-ListedUnder :
      (v : Json) (m : Members) (instances : List Json)
      → listed_under v m ≡ returned instances
      → ListedUnder v m instances
  listed-ListedUnder (array xs) m instances h = sym (returned-injective _ instances h)
  listed-ListedUnder null m instances h = sym (returned-injective _ instances h)
  listed-ListedUnder (boolean b) m instances h = sym (returned-injective _ instances h)
  listed-ListedUnder (number n) m instances h = sym (returned-injective _ instances h)
  listed-ListedUnder (string s) m instances h = sym (returned-injective _ instances h)
  listed-ListedUnder (object n) m instances h = sym (returned-injective _ instances h)

  instances_of-AreEntries :
      (content : Json) (instances : List Json)
      → instances_of content ≡ returned instances
      → AreEntries content instances
  unfolding instances_of
  instances_of-AreEntries (array xs) instances h = sym (returned-injective _ instances h)
  instances_of-AreEntries (object m) instances h =
      listed-ListedUnder (member_of "instances" null m) m instances h
  instances_of-AreEntries null instances h = absurd cc
  instances_of-AreEntries (boolean b) instances h = absurd cc
  instances_of-AreEntries (number n) instances h = absurd cc
  instances_of-AreEntries (string s) instances h = absurd cc

  -- The instance that is returned is the only entry of the answer that is named after the node: its label or
  -- its host name is the node's name, or that name after the prefix for labels or for host names, where
  -- the prefix is not empty. The returned id is that entry's.
  pub parse_instance_by_node_name-IsOnly :
      (content : Json) (found : InstanceMatch)
      → parse_instance_by_node_name repr config content ≡ returned found
      → (instances : List Json) × (m : Members) × AreEntries content instances
        × IsOnly m instances
        × (found.instance_id ≡ text_at repr "id" m)
  unfolding parse_instance_by_node_name
  parse_instance_by_node_name-IsOnly content found h = elim (Bool-cases (is_true content)) [
    | inr empty ↦ absurd (ground (arith, h, empty))
    | inl full ↦
        let (instances, listed, made) =
          and_then-returned (instances_of content)
            (λ xs. only_match repr (candidates_of repr config xs)) found
            (ground (arith, h, full)) in
        let (m, single, same_id) =
          only_match-only found (candidates_of repr config instances) made in
        (
          instances,
          m,
          instances_of-AreEntries content instances listed,
          candidates_of-IsOnly m instances single,
          same_id,
        )
  ]
