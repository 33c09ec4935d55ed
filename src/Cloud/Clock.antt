-- ===== src/Cloud/Clock.antt =====
-- The clock of the host through the calls of a script, and the polling loop against its deadline.
use mathlib.Core.Path.{subst}
use predictive_autoscaling_k.Cloud.{
  Failure, Json, Outcome, and_then, command_failed, no_fuel, raised, returned,
}
use predictive_autoscaling_k.Cloud.Effects.{
  Event, Host, Method, Reply, Request, Script, State, api_call, bad_body, body_read, failed_request,
  is_success, lift, log_exit, log_response, monotonic, proceed, raise, return, run_command,
  run_unchecked, seconds, sleep, ◌>>=◌,
}
use predictive_autoscaling_k.Cloud.Environment.{deadline_after}
use predictive_autoscaling_k.Cloud.Polling.{Turn, after_deadline, again, finished, go_on, poll}
use predictive_autoscaling_k.Common.{
  Bool, List, Option, String, arith, false, if◌then◌else◌, ltb, none, refl, some, suc, sym, true,
  zero, ℕ, ◌+◌, ◌<◌, ◌≡◌, ◌≤◌,
}
use predictive_autoscaling_k.Common.Int.{negsuc, pos, pos_part, ℤ}

-- The clock never goes back, and `time.sleep` lasts as long as it is asked to.
pub record IsSteady {W : Type 0} (host : Host W) : Type 0 where
  pub looks : (w : W) → host.clock w ≤ host.clock (host.look w)
  pub pauses : (n : ℕ) (w : W) → host.clock w + n ≤ host.clock (host.pause n w)
  pub responds : (request : Request) (w : W) → host.clock w ≤ host.clock (host.respond request w).1
  pub executes : (args : List String) (w : W) → host.clock w ≤ host.clock (host.execute args w).1

-- Not the end of a loop that ran out of its fuel.
abbrev IsOther : Failure → Type 0
IsOther no_fuel = ⊥
IsOther _ = Unit {0}

abbrev pub IsSettled : {A : Type 0} → Outcome A → Type 0
IsSettled (returned a) = Unit {0}
IsSettled (raised why) = IsOther why

pub and_then-IsSettled :
    {A B : Type 0} (outcome : Outcome A) (make : A → Outcome B)
    → IsSettled outcome
    → ((a : A) → IsSettled (make a))
    → IsSettled (and_then outcome make)
and_then-IsSettled (returned a) make h k = k a
and_then-IsSettled (raised why) make h k = h

pub if-IsSettled :
    {A : Type 0} (b : Bool) (this that : Outcome A)
    → IsSettled this
    → IsSettled that
    → IsSettled (if b then this else that)
if-IsSettled true this that h k = h
if-IsSettled false this that h k = k

deadline_after-le :
    (now : ℕ) (timeout : ℤ) (fuel : ℕ)
    → pos_part timeout < suc fuel
    → deadline_after now timeout ≤ now + seconds fuel
deadline_after-le now (pos n) fuel h = omega (arith, h)
deadline_after-le now (negsuc n) fuel h = omega arith

module _ {W : Type 0} (host : Host W) (steady : IsSteady host) where
  -- From this state the script ends by itself, and no time is lost.
  abbrev pub EndsAt : {A : Type 0} → Script W A → State W → Type 0
  EndsAt script s = (host.clock s.world ≤ host.clock (script s).1.world) × IsSettled (script s).0

  abbrev pub Ends : {A : Type 0} → Script W A → Type 0
  Ends script = (s : State W) → EndsAt script s

  proceed-EndsAt :
      {A B : Type 0} (next : A → Script W B) (before : ℕ) (outcome : Outcome A) (s : State W)
      → before ≤ host.clock s.world
      → IsSettled outcome
      → ((a : A) → outcome ≡ returned a → EndsAt (next a) s)
      → (before ≤ host.clock (proceed next outcome s).1.world)
        × IsSettled (proceed next outcome s).0
  proceed-EndsAt next before (returned a) s h settled k =
      let (later, end) = k a refl in (omega (arith, h, later), end)
  proceed-EndsAt next before (raised why) s h settled k = (h, settled)

  pub >>=-EndsAt :
      {A B : Type 0} (first : Script W A) (next : A → Script W B) (s : State W)
      → EndsAt first s
      → ((a : A) → (first s).0 ≡ returned a → EndsAt (next a) (first s).1)
      → EndsAt (first >>= next) s
  >>=-EndsAt first next s (later, settled) k =
      proceed-EndsAt next (host.clock s.world) (first s).0 (first s).1 later settled k

  pub >>=-Ends :
      {A B : Type 0} (first : Script W A) (next : A → Script W B)
      → Ends first
      → ((a : A) → Ends (next a))
      → Ends (first >>= next)
  >>=-Ends first next h k s = >>=-EndsAt first next s (h s) (λ a _. k a (first s).1)

  pub if-Ends :
      {A : Type 0} (b : Bool) (this that : Script W A)
      → Ends this
      → Ends that
      → Ends (if b then this else that)
  if-Ends true this that h k = h
  if-Ends false this that h k = k

  pub lift-Ends : {A : Type 0} (outcome : Outcome A) → IsSettled outcome → Ends (lift outcome)
  lift-Ends outcome settled s = (omega arith, settled)

  pub return-Ends : {A : Type 0} (a : A) → Ends (return a)
  return-Ends a s = (omega arith, tt)

  log_response-Ends :
      (request : Request) (log : List Event) (before : ℕ) (p : Reply × W)
      → before ≤ host.clock p.1
      → (before ≤ host.clock (log_response request log p).1.world)
        × IsSettled (log_response request log p).0
  log_response-Ends request log before (body_read content, w) h = (h, tt)
  log_response-Ends request log before (failed_request, w) h = (h, tt)
  log_response-Ends request log before (bad_body, w) h = (h, tt)

  pub api_call-Ends :
      (method : Method) (path : String) (body : Option Json) → Ends (api_call host method path body)
  unfolding api_call
  api_call-Ends method path body s = log_response-Ends _ s.log _ _ (steady.responds _ s.world)

  log_exit-Ends :
      (args : List String) (log : List Event) (before : ℕ) (p : Option ℤ × W)
      → before ≤ host.clock p.1
      → (before ≤ host.clock (log_exit args log p).1.world) × IsSettled (log_exit args log p).0
  log_exit-Ends args log before (some code, w) h = (h, tt)
  log_exit-Ends args log before (none, w) h = (h, tt)

  pub run_unchecked-Ends : (args : List String) → Ends (run_unchecked host args)
  unfolding run_unchecked
  run_unchecked-Ends args s = log_exit-Ends args s.log _ _ (steady.executes args s.world)

  pub run_command-Ends : (args : List String) → Ends (run_command host args)
  unfolding run_command
  run_command-Ends args = >>=-Ends (run_unchecked host args) _ (run_unchecked-Ends args) λ code.
      if-Ends (is_success code) (return tt) (raise (command_failed code)) (return-Ends tt)
        (λ s. (omega arith, tt))

  if-EndsAt :
      {A : Type 0} (b : Bool) (this that : Script W A) (s : State W)
      → (b ≡ true → EndsAt this s)
      → (b ≡ false → EndsAt that s)
      → EndsAt (if b then this else that) s
  if-EndsAt true this that s h k = h refl
  if-EndsAt false this that s h k = k refl

  go_on-EndsAt :
      {S A : Type 0} (i : ℕ) (next_rounds : S → Script W (Option A)) (turn : Turn S A)
      (state : State W)
      → ((s : S) (later : State W)
          → host.clock state.world + seconds 1 ≤ host.clock later.world
          → EndsAt (next_rounds s) later)
      → EndsAt (go_on host (pos (suc i)) next_rounds turn) state
  unfolding sleep
  go_on-EndsAt i next_rounds (finished a) state h = (omega arith, tt)
  go_on-EndsAt i next_rounds (again s) state h =
      let later = host.pause (seconds (suc i)) state.world in
      let longer = steady.pauses (seconds (suc i)) state.world in
      let (end, settled) = h s (record state { world = later }) (omega (arith, longer)) in
      (omega (arith, longer, end), settled)

  -- With an interval of at least a second, a second of the clock takes one unit of the fuel at most.
  module _ {S A : Type 0} (deadline i : ℕ) (round : S → Script W (Turn S A))
      (ends : (s : S) → Ends (round s)) where
    pub poll-EndsAt :
        (fuel : ℕ) (s : S) (state : State W)
        → deadline ≤ host.clock state.world + seconds fuel
        → EndsAt (poll host deadline (pos (suc i)) round (suc fuel) s) state
    unfolding poll monotonic
    poll-EndsAt zero s state enough =
        let w = host.look state.world in
        let (end, settled) =
          if-EndsAt (ltb (host.clock state.world) deadline)
            (round s >>= go_on host (pos (suc i)) (poll host deadline (pos (suc i)) round zero))
            (return none) (record state { world = w })
            (λ before. absurd (ground (arith, before, enough))) (λ _. (omega arith, tt)) in
        (omega (arith, end, steady.looks state.world), settled)
    poll-EndsAt (suc fuel) s state enough =
        let w = host.look state.world in
        let (end, settled) =
          if-EndsAt (ltb (host.clock state.world) deadline)
            (round s
              >>= go_on host (pos (suc i)) (poll host deadline (pos (suc i)) round (suc fuel)))
            (return none) (record state { world = w })
            (λ _.
              >>=-EndsAt (round s) _ (record state { world = w })
                (ends s (record state { world = w }))
                λ turn _.
                  go_on-EndsAt i _ turn (round s (record state { world = w })).1 λ s' later longer.
                    poll-EndsAt fuel s' later (
                      omega (
                        arith,
                        enough,
                        longer,
                        steady.looks state.world,
                        (ends s (record state { world = w })).0,
                      )))
            (λ _. (omega arith, tt)) in
        (omega (arith, end, steady.looks state.world), settled)

  after_deadline-Ends :
      {A : Type 0} (otherwise : Script W A)
      → Ends otherwise
      → (result : Option A) → Ends (after_deadline otherwise result)
  after_deadline-Ends otherwise h (some a) = return-Ends a
  after_deadline-Ends otherwise h none = h

  -- More fuel than the timeout has seconds is enough.
  module _ {S A : Type 0} (round : S → Script W (Turn S A)) (ends : (s : S) → Ends (round s))
      (otherwise : Script W A) (end : Ends otherwise) where
    pub wait-Ends :
        (timeout interval : ℤ) (i fuel : ℕ) (s : S)
        → interval ≡ pos (suc i)
        → pos_part timeout < fuel
        → Ends (
            monotonic host >>= λ now.
            poll host (deadline_after now timeout) interval round fuel s
            >>= after_deadline otherwise)
    unfolding monotonic
    wait-Ends timeout interval i zero s same enough = λ state. absurd (omega (arith, enough))
    wait-Ends timeout interval i (suc fuel) s same enough = λ state.
        let now = host.clock state.world in
        let looked : State W = record state { world = host.look state.world } in
        let (later, settled) =
          subst
            (λ z.
              EndsAt
                (poll host (deadline_after now timeout) z round (suc fuel) s
                  >>= after_deadline otherwise)
                looked)
            (sym same)
            (>>=-EndsAt (poll host (deadline_after now timeout) (pos (suc i)) round (suc fuel) s)
              (after_deadline otherwise) looked
              (poll-EndsAt (deadline_after now timeout) i round ends fuel s looked (
                omega (arith, deadline_after-le now timeout fuel enough, steady.looks state.world)))
              (λ result _. after_deadline-Ends otherwise end result _)) in
        (omega (arith, later, steady.looks state.world), settled)
