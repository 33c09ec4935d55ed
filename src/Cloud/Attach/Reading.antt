-- ===== src/Cloud/Attach/Reading.antt =====
-- What the parsers of linux-script/attach-vm-to-lb.py find, in terms of the answer's JSON alone.
use mathlib.Core.Path.{subst}
use predictive_autoscaling_k.Cloud.{
  Elements, Json, Members, array, as_list, as_object, boolean, elements_of, empty_balancer,
  get_member, is_in, is_true, iterate, member_of, no_element, no_instance, no_member, null, number,
  object, raised, returned, script_error, str, string, texts_of,
}
use predictive_autoscaling_k.Cloud.Answers.{
  Stands, as_list-array, as_object-object, get_member-object, text_at,
}
use predictive_autoscaling_k.Cloud.Attach.{
  Config, InstanceSummary, LoadBalancerSummary, balancer_of, find_instance, lb_has_instance,
  listed_instances, parse_instance_id_by_public_ip, parse_instance_summary, parse_lb_summary,
}
use predictive_autoscaling_k.Cloud.Attach.Run.{resolve}
use predictive_autoscaling_k.Cloud.Triples.{and_then-returned, returned-injective}
use predictive_autoscaling_k.Common.{
  ==_iff, All, Bool-cases, List, String, [], ap, arith, inl, inr, string_Eq, string_Eq, sym, true,
  ◌++◌, ◌==◌, ◌∙◌, ◌∷◌, ◌≡◌,
}

module _ (repr : Json → String) where
  -- The load balancer in the answer has instances with this id among them.
  abbrev pub HasInstance : String → Json → Type 0
  HasInstance instance_id content =
      (m : Members) × (lb : Members) × (ids : List Json) × (content ≡ object m)
      × (member_of "load_balancer" (object no_member) m ≡ object lb)
      × (iterate (member_of "instances" (array no_element) lb) ≡ returned ids)
      × Stands repr instance_id ids

  -- No dict of the list has this text under the key.
  abbrev pub IsOther : String → String → Json → Type 0
  IsOther key wanted (object m) = ¬ (text_at repr key m ≡ wanted)
  IsOther key wanted _ = Unit {0}

  -- The first dict of the list with this text under the key.
  abbrev pub IsFirst : String → String → Members → List Json → Type 0
  IsFirst key wanted m instances =
      (front : List Json) × (back : List Json) × (instances ≡ front ++ (object m ∷ back))
      × (text_at repr key m ≡ wanted)
      × All (IsOther key wanted) front

  -- The first VM in the answer's list with this address has this id.
  abbrev pub HasAddress : String → String → Json → Type 0
  HasAddress address instance_id content =
      (all : Members) × (xs : Elements) × (m : Members) × (content ≡ object all)
      × (member_of "instances" (array no_element) all ≡ array xs)
      × IsFirst "main_ip" address m (elements_of xs)
      × (instance_id ≡ text_at repr "id" m)

  texts_of-Stands :
      (id : String) (xs : List Json) → is_in id (texts_of repr xs) ≡ true → Stands repr id xs
  texts_of-Stands id [] h = absurd cc
  texts_of-Stands id (x ∷ xs) h = elim (Bool-cases (is_true x)) [
    | inr no_text ↦ inr (texts_of-Stands id xs (rw no_text at h))
    | inl some_text ↦ elim (Bool-cases (id == str repr x)) [
      | inl same ↦ inl (ground (arith, same, string_Eq.same_iff id (str repr x)))
      | inr other_text ↦ inr (texts_of-Stands id xs (rw (some_text, other_text) at h))
    ]
  ]

  balancer_of-object :
      (content : Json) (lb : Members)
      → balancer_of repr content ≡ returned lb
      → (m : Members) × (content ≡ object m)
        × (member_of "load_balancer" (object no_member) m ≡ object lb)
  unfolding balancer_of
  balancer_of-object content lb h = elim (Bool-cases (is_true content)) [
    | inr empty ↦
        let failed : raised (script_error empty_balancer) ≡ returned lb = rw empty at h in absurd cc
    | inl full ↦
        let (v, got, h1) =
          and_then-returned (get_member "load_balancer" (object no_member) content) as_object lb
            (rw full at h) in
        let (m, same, under) = get_member-object "load_balancer" (object no_member) v content got in
        (m, same, under ∙ as_object-object v lb h1)
  ]

  pub lb_has_instance-HasInstance :
      (id : String) (content : Json) (s : LoadBalancerSummary)
      → parse_lb_summary repr content ≡ returned s
      → lb_has_instance s id ≡ true
      → HasInstance id content
  unfolding parse_lb_summary lb_has_instance
  lb_has_instance-HasInstance id content s h has =
      let (lb, balancer, h1) = and_then-returned (balancer_of repr content) _ s h in
      let (ids, listed, h2) =
        and_then-returned (iterate (member_of "instances" (array no_element) lb)) _ s h1 in
      let same : s.instances ≡ texts_of repr ids =
        ap (λ z. z.instances) (sym (returned-injective _ s h2)) in
      let (m, is_object, under) = balancer_of-object content lb balancer in
      (m, lb, ids, is_object, under, listed, texts_of-Stands id ids (rw same at has))

  IsFirst-cons :
      (key wanted : String) (m : Members) (x : Json) (instances : List Json)
      → IsOther key wanted x
      → IsFirst key wanted m instances
      → IsFirst key wanted m (x ∷ instances)
  IsFirst-cons key wanted m x instances other_one (front, back, same, it, before) =
      (x ∷ front, back, ap (λ l. x ∷ l) same, it, (other_one, before))

  find_instance-IsFirst :
      (key wanted : String) (instances : List Json) (m : Members)
      → find_instance repr key wanted instances ≡ returned m
      → IsFirst key wanted m instances
  unfolding find_instance
  find_instance-IsFirst key wanted [] m h = absurd cc
  find_instance-IsFirst key wanted (object n ∷ instances) m h =
      elim (Bool-cases (text_at repr key n == wanted)) [
        | inl it ↦
            let same : n ≡ m = returned-injective n m (rw it at h) in
            (
              [],
              instances,
              ap (λ z. object z ∷ instances) same,
              ap (text_at repr key) (sym same)
                  ∙ ground (arith, it, ==_iff (text_at repr key n) wanted),
              tt,
            )
        | inr no_it ↦
            IsFirst-cons key wanted m (object n) instances
              (λ same. ground (arith, no_it, same, ==_iff (text_at repr key n) wanted))
              (find_instance-IsFirst key wanted instances m (rw no_it at h))
      ]
  find_instance-IsFirst key wanted (null ∷ instances) m h =
      IsFirst-cons key wanted m null instances tt (find_instance-IsFirst key wanted instances m h)
  find_instance-IsFirst key wanted (boolean b ∷ instances) m h =
      IsFirst-cons key wanted m (boolean b) instances tt
        (find_instance-IsFirst key wanted instances m h)
  find_instance-IsFirst key wanted (number n ∷ instances) m h =
      IsFirst-cons key wanted m (number n) instances tt
        (find_instance-IsFirst key wanted instances m h)
  find_instance-IsFirst key wanted (string s ∷ instances) m h =
      IsFirst-cons key wanted m (string s) instances tt
        (find_instance-IsFirst key wanted instances m h)
  find_instance-IsFirst key wanted (array xs ∷ instances) m h =
      IsFirst-cons key wanted m (array xs) instances tt
        (find_instance-IsFirst key wanted instances m h)

  listed_instances-array :
      (content : Json) (instances : List Json)
      → listed_instances content ≡ returned instances
      → (m : Members) × (xs : Elements) × (content ≡ object m)
        × (member_of "instances" (array no_element) m ≡ array xs)
        × (instances ≡ elements_of xs)
  unfolding listed_instances
  listed_instances-array content instances h = elim (Bool-cases (is_true content)) [
    | inr empty ↦
        let failed : raised (script_error no_instance) ≡ returned instances = rw empty at h in
        absurd cc
    | inl full ↦
        let (v, got, h1) =
          and_then-returned (get_member "instances" (array no_element) content) as_list instances
            (rw full at h) in
        let (m, same, under) = get_member-object "instances" (array no_element) v content got in
        let (xs, is_array, all_of) = as_list-array v instances h1 in
        (m, xs, same, under ∙ is_array, all_of)
  ]

  -- The VM that the script works on.
  pub resolve-HasAddress :
      (config : Config) (content : Json) (found : InstanceSummary)
      → resolve repr config content ≡ returned found
      → HasAddress config.target_public_ip found.instance_id content
  unfolding resolve parse_instance_id_by_public_ip parse_instance_summary
  resolve-HasAddress config content found h =
      let (id, parsed, h1) =
        and_then-returned (parse_instance_id_by_public_ip repr content config.target_public_ip) _
          found h in
      let (instances, listed, h2) = and_then-returned (listed_instances content) _ id parsed in
      let (m, first, h3) =
        and_then-returned (find_instance repr "main_ip" config.target_public_ip instances) _ id
          h2 in
      let (again, _, h4) = and_then-returned (listed_instances content) _ found h1 in
      let (n, _, h5) = and_then-returned (find_instance repr "id" id again) _ found h4 in
      let (all, xs, is_object, under, entries) = listed_instances-array content instances listed in
      (
        all,
        xs,
        m,
        is_object,
        under,
        subst (IsFirst "main_ip" config.target_public_ip m) entries
            (find_instance-IsFirst "main_ip" config.target_public_ip instances m first),
        sym (ap (λ z. z.instance_id) (returned-injective _ found h5))
            ∙ sym (returned-injective _ id h3),
      )
