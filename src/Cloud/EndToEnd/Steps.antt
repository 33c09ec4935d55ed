-- ===== src/Cloud/EndToEnd/Steps.antt =====
-- The order of the steps of linux-script/create-worker-e2e.py.
use predictive_autoscaling_k.Cloud.{Outcome, raised, returned, script_error, timed_out}
use predictive_autoscaling_k.Cloud.Calls.{
  Finishes, IsNewest, monotonic-Gives, poll-Gives, poll_after-Gives, run_command-Gives,
  run_unchecked-Gives,
}
use predictive_autoscaling_k.Cloud.Effects.{
  Event, Host, Script, is_success, monotonic, raise, ran, run_command, run_unchecked, ◌>>=◌,
}
use predictive_autoscaling_k.Cloud.EndToEnd.{
  Environ, int_env, remove_stale_known_host, retry_round, ssh_args, wait_args, wait_for_node_ready,
  wait_for_ssh_ready,
}
use predictive_autoscaling_k.Cloud.Environment.{deadline_after}
use predictive_autoscaling_k.Cloud.Polling.{after_deadline, again, finished, poll}
use predictive_autoscaling_k.Cloud.Teardown.Run.{get_node}
use predictive_autoscaling_k.Cloud.Teardown.Spec.{Seen, Seen-IsLasting, Seen-newest}
use predictive_autoscaling_k.Cloud.Triples.{
  >>=-Gives, After, Anything, Gives, Gives-map, IsLasting, if-Gives, lift_then-Gives,
}
use predictive_autoscaling_k.Common.{
  Bool, List, String, [], false, if◌then◌else◌, refl, string_Eq, true, ℕ, ◌∷◌, ◌≡◌,
}
use predictive_autoscaling_k.Common.Int.{pos, ℤ}

abbrev pub Always : List Event → Type 0
Always log = Unit {0}

-- These commands succeeded, the first of the list last, with any other calls between them.
unfoldable pub SucceededIn : List (List String) → List Event → Type 0
SucceededIn [] log = Unit
SucceededIn (args ∷ earlier) log =
    Seen
      (λ e older.
        (code : ℤ) × (e ≡ ran args code) × (is_success code ≡ true) × SucceededIn earlier older)
      log

pub SucceededIn-IsLasting : (commands : List (List String)) → IsLasting (SucceededIn commands)
unfolding SucceededIn
SucceededIn-IsLasting [] e log harmless h = tt
SucceededIn-IsLasting (args ∷ earlier) e log harmless h = Seen-IsLasting _ e log harmless h

pub nothing-SucceededIn : (log : List Event) → SucceededIn [] log
unfolding SucceededIn
nothing-SucceededIn log = tt

pub SucceededIn-newest :
    (args : List String) (earlier : List (List String)) (code : ℤ) (log : List Event)
    → is_success code ≡ true
    → IsNewest (SucceededIn earlier) (ran args code) log
    → SucceededIn (args ∷ earlier) log
unfolding SucceededIn
SucceededIn-newest args earlier code log good newest =
    Seen-newest _ (SucceededIn earlier) (ran args code) log newest (code, refl, good, newest.2)

After-forget :
    {A : Type 0} (Kept : List Event → Type 0) (Result Wanted : A → List Event → Type 0)
    (outcome : Outcome A) (log : List Event)
    → ((a : A) → Kept log → Result a log → Wanted a log)
    → After Kept Result outcome log
    → After Always Wanted outcome log
After-forget Kept Result Wanted (returned a) log f h = (tt, f a h.0 h.1)
After-forget Kept Result Wanted (raised why) log f h = tt

module _ {W : Type 0} where
  -- A script that leaves the commands before it, and what it adds.
  pub then-Gives :
      {A B : Type 0} (Before : List Event → Type 0) (Middle : A → List Event → Type 0)
      (Result : B → List Event → Type 0) (first : Script W A) (next : A → Script W B)
      → Gives Before Before first Middle
      → ((a : A) → Gives (λ log. Before log × Middle a log) Always (next a) Result)
      → Gives Before Always (first >>= next) Result
  then-Gives Before Middle Result first next h k =
      >>=-Gives Before Always (λ a log. Before log × Middle a log) Result first next
        (λ s before.
          After-forget Before Middle (λ a log. Before log × Middle a log) (first s).0
            (first s).1.log (λ a b m. (b, m)) (h s before))
        (λ a s both. k a s both.1)

module _ {W : Type 0} (host : Host W) where
  pub run_then-Gives :
      {B : Type 0} (args : List String) (earlier : List (List String))
      (Result : B → List Event → Type 0) (next : Unit {0} → Script W B)
      → ((u : Unit {0}) → Gives (SucceededIn (args ∷ earlier)) Always (next u) Result)
      → Gives (SucceededIn earlier) Always (run_command host args >>= next) Result
  run_then-Gives args earlier Result next k =
      then-Gives (SucceededIn earlier) _ Result (run_command host args) next
        (run_command-Gives host (SucceededIn earlier) (SucceededIn-IsLasting earlier) args)
        (λ u s both. k u s (SucceededIn-newest args earlier both.1.0 s.log both.1.1 both.1.2))

  unchecked-Gives :
      (args : List String) (commands : List (List String))
      → Gives
          (SucceededIn commands)
          (SucceededIn commands)
          (run_unchecked host args)
          (λ code. IsNewest (SucceededIn commands) (ran args code))
  unchecked-Gives args commands =
      run_unchecked-Gives host (SucceededIn commands) (SucceededIn-IsLasting commands) args

  retry-Finishes :
      (args : List String) (commands : List (List String)) (code : ℤ) (b : Bool) (log : List Event)
      → is_success code ≡ b
      → IsNewest (SucceededIn commands) (ran args code) log
      → Finishes {S = Unit {0}}
          (λ (u : Unit {0}). SucceededIn (args ∷ commands))
          (if b then finished tt else again tt)
          log
  retry-Finishes args commands code true log good newest =
      SucceededIn-newest args commands code log good newest
  retry-Finishes args commands code false log good newest = tt

  module _ (env : Environ) where
    retry_round-Gives :
        (args : List String) (commands : List (List String)) (u : Unit {0})
        → Gives
            (SucceededIn commands)
            (SucceededIn commands)
            (retry_round host env args u)
            (Finishes {S = Unit {0}} (λ (u : Unit {0}). SucceededIn (args ∷ commands)))
    unfolding retry_round
    retry_round-Gives args commands u =
        >>=-Gives (SucceededIn commands) (SucceededIn commands) _ _ (run_unchecked host args) _
          (unchecked-Gives args commands)
          (λ code s both.
            (both.0, retry-Finishes args commands code (is_success code) s.log refl both.1))

    pub stale-Gives :
        (extract : String → String) (ssh_target : String) (commands : List (List String))
        → Gives
            (SucceededIn commands)
            (SucceededIn commands)
            (remove_stale_known_host host env extract ssh_target)
            Anything
    unfolding remove_stale_known_host
    stale-Gives extract ssh_target commands =
        let K = SucceededIn commands in
        >>=-Gives K K _ Anything (run_unchecked host _) _ (unchecked-Gives _ commands) (λ _.
          >>=-Gives _ K _ Anything (run_unchecked host _) _
            (λ s both. unchecked-Gives _ commands s both.0) (λ _ s both. (both.0, tt)))

    abbrev pub IsReached : (ℤ → String) → String → List (List String) → List Event → Type 0
    IsReached show ssh_target commands log =
        (connect_timeout : ℤ) × (int_env env.connect_timeout_variable (pos 5)
          ≡ returned connect_timeout)
        × SucceededIn (ssh_args show env connect_timeout ssh_target ∷ commands) log

    pub wait_for_ssh_ready-Gives :
        (fuel : ℕ) (show : ℤ → String) (ssh_target : String) (commands : List (List String))
        → Gives
            (SucceededIn commands)
            (SucceededIn commands)
            (wait_for_ssh_ready host env fuel show ssh_target)
            (λ _. IsReached show ssh_target commands)
    unfolding wait_for_ssh_ready
    wait_for_ssh_ready-Gives fuel show ssh_target commands =
        let K = SucceededIn commands in
        let args : ℤ → List String = λ n. ssh_args show env n ssh_target in
        let Out : Unit {0} → List Event → Type 0 = λ _. IsReached show ssh_target commands in
        lift_then-Gives K K Out (int_env env.ssh_timeout_variable (pos 300)) _ (λ _ k. k)
          λ timeout _.
            lift_then-Gives K K Out (int_env env.ssh_interval_variable (pos 5)) _ (λ _ k. k)
              λ interval _.
                lift_then-Gives K K Out (int_env env.connect_timeout_variable (pos 5)) _ (λ _ k. k)
                  λ connect_timeout same.
                    >>=-Gives K K Anything Out (monotonic host) _ (monotonic-Gives host K)
                      λ now s k.
                        Gives-map _ K (λ _. SucceededIn (args connect_timeout ∷ commands)) Out
                          (poll host (deadline_after now timeout) interval
                              (retry_round host env (args connect_timeout)) fuel tt
                            >>= after_deadline (raise (script_error timed_out)))
                          (λ _ log _ r. (connect_timeout, same, r))
                          (poll_after-Gives host K (deadline_after now timeout) interval
                            (retry_round host env (args connect_timeout)) _
                            (retry_round-Gives (args connect_timeout) commands)
                            (raise (script_error timed_out)) (λ s k. k) fuel tt)
                          s k.0

    pub run_last-Gives :
        (args : List String) (commands : List (List String))
        → Gives
            (SucceededIn commands)
            Always
            (run_command host args)
            (λ _. SucceededIn (args ∷ commands))
    run_last-Gives args commands s before =
        After-forget (SucceededIn commands) _ (λ _. SucceededIn (args ∷ commands)) _ _
          (λ u _ m. SucceededIn-newest args commands m.0 _ m.1 m.2)
          (run_command-Gives host (SucceededIn commands) (SucceededIn-IsLasting commands) args s
            before)

    pub wait_for_node_ready-Gives :
        (fuel : ℕ) (node_name : String) (commands : List (List String))
        → Gives
            (SucceededIn commands)
            Always
            (wait_for_node_ready host env fuel node_name)
            (λ _. SucceededIn (wait_args env node_name ∷ commands))
    unfolding wait_for_node_ready
    wait_for_node_ready-Gives fuel node_name commands =
        let K = SucceededIn commands in
        let Out : Unit {0} → List Event → Type 0 =
          λ _. SucceededIn (wait_args env node_name ∷ commands) in
        lift_then-Gives K Always Out (int_env env.registration_variable (pos 300)) _ (λ _ _. tt)
          λ timeout _.
            lift_then-Gives K Always Out (int_env env.node_interval_variable (pos 5)) _ (λ _ _. tt)
              λ interval _.
                then-Gives K Anything Out (monotonic host) _ (monotonic-Gives host K) λ now s k.
                  then-Gives K _ Out
                    (poll host (deadline_after now timeout) interval
                      (retry_round host env (get_node node_name)) fuel tt)
                    _
                    (poll-Gives host K (deadline_after now timeout) interval
                      (retry_round host env (get_node node_name)) _
                      (retry_round-Gives (get_node node_name) commands) fuel tt)
                    (λ _ s k.
                      then-Gives K _ Out (run_unchecked host (get_node node_name)) _
                        (unchecked-Gives (get_node node_name) commands)
                        (λ code.
                          if-Gives _ Always Out (is_success code)
                            (run_command host (wait_args env node_name)) _
                            (λ _ s k. run_last-Gives (wait_args env node_name) commands s k.0)
                            (λ _ s k. tt))
                        s k.0)
                    s k.0
