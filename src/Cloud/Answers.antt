-- ===== src/Cloud/Answers.antt =====
-- What an answer of the API says, in terms of its JSON alone: the lists that it holds and what stands in them.
use mathlib.Core.Path.{subst}
use predictive_autoscaling_k.Cloud.{
  Elements, Json, Members, array, as_list, as_object, boolean, elements_of, get_member, is_in,
  member, member_of, no_element, no_member, null, number, object, returned, str, string,
}
use predictive_autoscaling_k.Cloud.Teardown.{ids_of, instance_exists_in_list}
use predictive_autoscaling_k.Cloud.Teardown.Balancer.{lb_has_instance}
use predictive_autoscaling_k.Cloud.Triples.{returned-injective}
use predictive_autoscaling_k.Common.{
  List, String, [], ap, arith, false, inl, inr, map, refl, string_Eq, string_Eq, sym, true, ◌∙◌,
  ◌∷◌, ◌≡◌, ◌⊎◌,
}

pub get_member-object :
    (key : String) (default v content : Json)
    → get_member key default content ≡ returned v
    → (m : Members) × (content ≡ object m) × (member_of key default m ≡ v)
get_member-object key default v (object m) h = (m, refl, returned-injective _ v h)
get_member-object key default v null h = absurd cc
get_member-object key default v (boolean b) h = absurd cc
get_member-object key default v (number n) h = absurd cc
get_member-object key default v (string s) h = absurd cc
get_member-object key default v (array xs) h = absurd cc

pub as_object-object : (v : Json) (m : Members) → as_object v ≡ returned m → v ≡ object m
as_object-object (object n) m h = ap object (returned-injective n m h)
as_object-object null m h = absurd cc
as_object-object (boolean b) m h = absurd cc
as_object-object (number n) m h = absurd cc
as_object-object (string s) m h = absurd cc
as_object-object (array xs) m h = absurd cc

pub as_list-array :
    (v : Json) (instances : List Json)
    → as_list v ≡ returned instances
    → (xs : Elements) × (v ≡ array xs) × (instances ≡ elements_of xs)
as_list-array (array xs) instances h = (xs, refl, sym (returned-injective _ instances h))
as_list-array null instances h = absurd cc
as_list-array (boolean b) instances h = absurd cc
as_list-array (number n) instances h = absurd cc
as_list-array (string s) instances h = absurd cc
as_list-array (object m) instances h = absurd cc

module _ (repr : Json → String) where
  -- The text of the value under the key, and the empty text where there is none.
  abbrev pub text_at : String → Members → String
  text_at key m = str repr (member_of key (string "") m)

  -- Some value of the list has this text.
  abbrev pub Stands : String → List Json → Type 0
  Stands id [] = ⊥
  Stands id (x ∷ xs) = (str repr x ≡ id) ⊎ Stands id xs

  -- Some dict of the list has this text as its id.
  abbrev pub HasId : String → List Json → Type 0
  HasId id [] = ⊥
  HasId id (object m ∷ xs) = (text_at "id" m ≡ id) ⊎ HasId id xs
  HasId id (_ ∷ xs) = HasId id xs

  -- The load balancer in the answer has a list of instances with this id in it.
  abbrev pub BalancerLists : String → Json → Type 0
  BalancerLists id content =
      (m : Members) × (lb : Members) × (xs : Elements) × (content ≡ object m)
      × (member_of "load_balancer" (object no_member) m ≡ object lb)
      × (member_of "instances" (array no_element) lb ≡ array xs)
      × Stands id (elements_of xs)

  -- The answer has a list of instances with a VM of this id in it.
  abbrev pub ListsVm : String → Json → Type 0
  ListsVm id content =
      (m : Members) × (xs : Elements) × (content ≡ object m)
      × (member_of "instances" (array no_element) m ≡ array xs)
      × HasId id (elements_of xs)

  Stands-is_in : (id : String) (xs : List Json) → Stands id xs → is_in id (map (str repr) xs) ≡ true
  Stands-is_in id [] h = absurd h
  Stands-is_in id (x ∷ xs) (inl same) = ground (arith, same, string_Eq.same_iff id (str repr x))
  Stands-is_in id (x ∷ xs) (inr later) = ground (arith, Stands-is_in id xs later)

  HasId-is_in : (id : String) (xs : List Json) → HasId id xs → is_in id (ids_of repr xs) ≡ true
  HasId-is_in id [] h = absurd h
  HasId-is_in id (object m ∷ xs) (inl same) =
      ground (arith, same, string_Eq.same_iff id (text_at "id" m))
  HasId-is_in id (object m ∷ xs) (inr later) = ground (arith, HasId-is_in id xs later)
  HasId-is_in id (null ∷ xs) h = HasId-is_in id xs h
  HasId-is_in id (boolean b ∷ xs) h = HasId-is_in id xs h
  HasId-is_in id (number n ∷ xs) h = HasId-is_in id xs h
  HasId-is_in id (string s ∷ xs) h = HasId-is_in id xs h
  HasId-is_in id (array ys ∷ xs) h = HasId-is_in id xs h

  -- `lb_has_instance` says no only of an answer that does not list the instance.
  pub lb_has_instance-BalancerLists :
      (id : String) (content : Json)
      → lb_has_instance repr content id ≡ returned false
      → ¬ BalancerLists id content
  unfolding lb_has_instance
  lb_has_instance-BalancerLists id content h (no_member, lb, xs, same, balancer, listed, stands) =
      let empty : lb ≡ no_member = cc in
      let nothing : array xs ≡ array no_element = sym listed ∙ rw empty refl in
      let none_there : xs ≡ no_element = cc in
      absurd (subst (λ z. Stands id (elements_of z)) none_there stands)
  lb_has_instance-BalancerLists id content h
        (member k v m, lb, xs, same, balancer, listed, stands) =
      let there = Stands-is_in id (elements_of xs) stands in
      let both : returned true ≡ returned false = rw (same, balancer, listed, there) at h in
      absurd cc

  -- `instance_exists_in_list` says no only of an answer that does not list the VM.
  pub instance_exists_in_list-ListsVm :
      (id : String) (content : Json)
      → instance_exists_in_list repr content id ≡ returned false
      → ¬ ListsVm id content
  unfolding instance_exists_in_list
  instance_exists_in_list-ListsVm id content h (no_member, xs, same, listed, there) =
      let none_there : xs ≡ no_element = cc in
      absurd (subst (λ z. HasId id (elements_of z)) none_there there)
  instance_exists_in_list-ListsVm id content h (member k v m, xs, same, listed, there) =
      let found = HasId-is_in id (elements_of xs) there in
      let both : returned true ≡ returned false = rw (same, listed, found) at h in absurd cc
