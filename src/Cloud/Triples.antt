-- ===== src/Cloud/Triples.antt =====
-- A logic for the scripts: what holds of the log after a script, whatever its outcome, and what holds
-- besides when it returns.
use mathlib.Core.Path.{subst}
use predictive_autoscaling_k.Cloud.{Outcome, and_then, raised, returned}
use predictive_autoscaling_k.Cloud.Effects.{
  Event, Method, Script, State, answered, http_delete, lift, proceed, ran, refused, ◌>>=◌,
}
use predictive_autoscaling_k.Common.{Bool, List, false, if◌then◌else◌, not, refl, true, ◌∷◌, ◌≡◌}

-- `Kept` holds of the log, and `Result` too when the script returned.
abbrev pub After :
    {A : Type 0}
    → (List Event → Type 0)
    → (A → List Event → Type 0)
    → Outcome A
    → List Event
    → Type 0
After Kept Result (returned a) log = Kept log × Result a log
After Kept Result (raised why) log = Kept log

abbrev pub Anything : {A : Type 0} → A → List Event → Type 0
Anything a log = Unit {0}

After-weaken :
    {A : Type 0} (Kept Middle : List Event → Type 0) (Result : A → List Event → Type 0)
    (outcome : Outcome A) (log : List Event)
    → After (λ l. Kept l × Middle l) Result outcome log
    → After Kept Result outcome log
After-weaken Kept Middle Result (returned a) log h = (h.0.0, h.1)
After-weaken Kept Middle Result (raised why) log h = h.0

module _ {W : Type 0} where
  -- Where `Before` holds of the log, the script leaves `Kept`, and `Result` when it returns.
  abbrev pub Gives :
      {A : Type 0}
      → (List Event → Type 0)
      → (List Event → Type 0)
      → Script W A
      → (A → List Event → Type 0)
      → Type 0
  Gives Before Kept script Result =
      (s : State W) → Before s.log → After Kept Result (script s).0 (script s).1.log

  proceed-After :
      {A B : Type 0} (Kept : List Event → Type 0) (Middle : A → List Event → Type 0)
      (Result : B → List Event → Type 0) (next : A → Script W B) (outcome : Outcome A) (s : State W)
      → After Kept Middle outcome s.log
      → ((a : A) → Gives (λ log. Kept log × Middle a log) Kept (next a) Result)
      → After Kept Result (proceed next outcome s).0 (proceed next outcome s).1.log
  proceed-After Kept Middle Result next (returned a) s h k = k a s h
  proceed-After Kept Middle Result next (raised why) s h k = h

  pub >>=-Gives :
      {A B : Type 0} (Before Kept : List Event → Type 0) (Middle : A → List Event → Type 0)
      (Result : B → List Event → Type 0) (first : Script W A) (next : A → Script W B)
      → Gives Before Kept first Middle
      → ((a : A) → Gives (λ log. Kept log × Middle a log) Kept (next a) Result)
      → Gives Before Kept (first >>= next) Result
  >>=-Gives Before Kept Middle Result first next h k s before =
      proceed-After Kept Middle Result next (first s).0 (first s).1 (h s before) k

  -- What lasts through the script may be given up after it.
  pub Gives-weaken :
      {A : Type 0} (Kept Middle : List Event → Type 0) (Result : A → List Event → Type 0)
      (script : Script W A)
      → Gives (λ log. Kept log × Middle log) (λ log. Kept log × Middle log) script Result
      → Gives (λ log. Kept log × Middle log) Kept script Result
  Gives-weaken Kept Middle Result script h s before =
      After-weaken Kept Middle Result (script s).0 (script s).1.log (h s before)

  pub if-Gives :
      {A : Type 0} (Before Kept : List Event → Type 0) (Result : A → List Event → Type 0) (b : Bool)
      (yes_script no_script : Script W A)
      → (b ≡ true → Gives Before Kept yes_script Result)
      → (b ≡ false → Gives Before Kept no_script Result)
      → Gives Before Kept (if b then yes_script else no_script) Result
  if-Gives Before Kept Result true yes_script no_script h k = h refl
  if-Gives Before Kept Result false yes_script no_script h k = k refl

  -- A value or an exception that no call made: the log stays, and the value is known.
  pub lift_then-Gives :
      {A B : Type 0} (Before Kept : List Event → Type 0) (Result : B → List Event → Type 0)
      (outcome : Outcome A) (next : A → Script W B)
      → ((log : List Event) → Before log → Kept log)
      → ((a : A) → outcome ≡ returned a → Gives Before Kept (next a) Result)
      → Gives Before Kept (lift outcome >>= next) Result
  lift_then-Gives Before Kept Result (returned a) next keep h = h a refl
  lift_then-Gives Before Kept Result (raised why) next keep h = λ s before. keep s.log before

After-map :
    {A : Type 0} (Kept : List Event → Type 0) (Result Wanted : A → List Event → Type 0)
    (outcome : Outcome A) (log : List Event)
    → ((a : A) → Kept log → Result a log → Wanted a log)
    → After Kept Result outcome log
    → After Kept Wanted outcome log
After-map Kept Result Wanted (returned a) log f h = (h.0, f a h.0 h.1)
After-map Kept Result Wanted (raised why) log f h = h

pub Gives-map :
    {W A : Type 0} (Before Kept : List Event → Type 0) (Result Wanted : A → List Event → Type 0)
    (script : Script W A)
    → ((a : A) (log : List Event) → Kept log → Result a log → Wanted a log)
    → Gives Before Kept script Result
    → Gives Before Kept script Wanted
Gives-map Before Kept Result Wanted script f h s before =
    After-map Kept Result Wanted (script s).0 (script s).1.log (λ a. f a _) (h s before)

After-shift :
    {A : Type 0} (Kept Middle : List Event → Type 0) (Result : A → List Event → Type 0)
    (outcome : Outcome A) (log : List Event)
    → After (λ l. Kept l × Middle l) Result outcome log
    → After Kept (λ a l. Middle l × Result a l) outcome log
After-shift Kept Middle Result (returned a) log h = (h.0.0, (h.0.1, h.1))
After-shift Kept Middle Result (raised why) log h = h.0

-- What lasts is part of the result.
pub Gives-shift :
    {W A : Type 0} (Before Kept Middle : List Event → Type 0) (Result : A → List Event → Type 0)
    (script : Script W A)
    → Gives Before (λ log. Kept log × Middle log) script Result
    → Gives Before Kept script (λ a log. Middle log × Result a log)
Gives-shift Before Kept Middle Result script h s before =
    After-shift Kept Middle Result (script s).0 (script s).1.log (h s before)

pub After-Kept :
    {A : Type 0} (Kept : List Event → Type 0) (Result : A → List Event → Type 0)
    (outcome : Outcome A) (log : List Event)
    → After Kept Result outcome log
    → Kept log
After-Kept Kept Result (returned a) log h = h.0
After-Kept Kept Result (raised why) log h = h

pub After-Result :
    {A : Type 0} (Kept : List Event → Type 0) (Result : A → List Event → Type 0)
    (outcome : Outcome A) (log : List Event) (a : A)
    → outcome ≡ returned a
    → After Kept Result outcome log
    → Result a log
After-Result Kept Result outcome log a same h = (subst (λ o. After Kept Result o log) same h).1

pub returned-injective : {A : Type 0} (a b : A) → returned a ≡ returned b → a ≡ b
returned-injective a b h = cc

pub and_then-returned :
    {A B : Type 0} (outcome : Outcome A) (make : A → Outcome B) (b : B)
    → and_then outcome make ≡ returned b
    → (a : A) × (outcome ≡ returned a) × (make a ≡ returned b)
and_then-returned (returned a) make b h = (a, refl, h)
and_then-returned (raised why) make b h = absurd cc

abbrev pub is_delete : Method → Bool
is_delete http_delete = true
is_delete _ = false

-- An event of the log that is no request to destroy.
abbrev pub is_harmless : Event → Bool
is_harmless (answered request content) = not (is_delete request.method)
is_harmless (refused request) = not (is_delete request.method)
is_harmless (ran args code) = true

-- A property of the log that further events do not undo.
abbrev pub IsLasting : (List Event → Type 0) → Type 0
IsLasting Kept = (e : Event) (log : List Event) → is_harmless e ≡ true → Kept log → Kept (e ∷ log)

pub ×-IsLasting :
    (Kept Other : List Event → Type 0)
    → IsLasting Kept
    → IsLasting Other
    → IsLasting (λ log. Kept log × Other log)
×-IsLasting Kept Other h k e log harmless (this, that) =
    (h e log harmless this, k e log harmless that)
