-- ===== src/Cloud/Calls.antt =====
-- What the calls of the host and the polling loop leave in the log.
use predictive_autoscaling_k.Cloud.{Json, command_failed}
use predictive_autoscaling_k.Cloud.Effects.{
  Event, Host, Method, Reply, Request, Script, answered, api_call, bad_body, body_read,
  failed_request, is_success, log_exit, log_response, monotonic, raise, ran, refused, return,
  run_command, run_unchecked, sleep, ◌>>=◌,
}
use predictive_autoscaling_k.Cloud.Polling.{Turn, after_deadline, again, finished, go_on, poll}
use predictive_autoscaling_k.Cloud.Triples.{
  >>=-Gives, After, Anything, Gives, IsLasting, if-Gives, is_delete,
}
use predictive_autoscaling_k.Common.{
  Bool, List, Option, String, false, if◌then◌else◌, ltb, none, refl, some, suc, true, zero, ℕ, ◌∷◌,
  ◌≡◌,
}
use predictive_autoscaling_k.Common.Int.{negsuc, pos, ℤ}

-- The newest event of the log is this one, and `Kept` held before it.
abbrev pub IsNewest : (List Event → Type 0) → Event → List Event → Type 0
IsNewest Kept e log = (older : List Event) × (log ≡ e ∷ older) × Kept older

-- The newest event of the log is this command, with an exit code of 0.
abbrev pub Succeeded : (List Event → Type 0) → List String → Unit {0} → List Event → Type 0
Succeeded Kept args _ log =
    (code : ℤ) × (is_success code ≡ true) × IsNewest Kept (ran args code) log

-- A result of a round, and nothing of a round that is to be repeated.
abbrev pub Finishes : {S A : Type 0} → (A → List Event → Type 0) → Turn S A → List Event → Type 0
Finishes Result (finished a) log = Result a log
Finishes Result (again s) log = Unit {0}

abbrev Found : {A : Type 0} → (A → List Event → Type 0) → Option A → List Event → Type 0
Found Result (some a) log = Result a log
Found Result none log = Unit {0}

-- A round that is repeated while the test holds.
pub again-Finishes :
    {S A : Type 0} (Result : A → List Event → Type 0) (b : Bool) (s : S) (a : A) (log : List Event)
    → (b ≡ false → Result a log)
    → Finishes {S = S} Result (if b then again s else finished a) log
again-Finishes Result true s a log h = tt
again-Finishes Result false s a log h = h refl

module _ {W : Type 0} (host : Host W) (Kept : List Event → Type 0) where
  pub monotonic-Gives : Gives Kept Kept (monotonic host) Anything
  unfolding monotonic
  monotonic-Gives s kept = (kept, tt)

  pub monotonic_shift-Gives :
      (Middle : List Event → Type 0)
      → Gives (λ log. Kept log × Middle log) Kept (monotonic host) (λ _. Middle)
  unfolding monotonic
  monotonic_shift-Gives Middle s both = both

  pub sleep-Gives : (length : ℤ) → Gives Kept Kept (sleep host length) Anything
  unfolding sleep
  sleep-Gives (pos n) s kept = (kept, tt)
  sleep-Gives (negsuc n) s kept = kept

  module _ (lasting : IsLasting Kept) where
    log_response-After :
        (request : Request) (log : List Event) (p : Reply × W)
        → is_delete request.method ≡ false
        → Kept log
        → After Kept
            (λ content. IsNewest Kept (answered request content))
            (log_response request log p).0
            (log_response request log p).1.log
    log_response-After request log (body_read content, w) h kept =
        (lasting (answered request content) log (rw h refl) kept, (log, refl, kept))
    log_response-After request log (failed_request, w) h kept =
        lasting (refused request) log (rw h refl) kept
    log_response-After request log (bad_body, w) h kept =
        lasting (refused request) log (rw h refl) kept

    pub api_call-Gives :
        (method : Method) (path : String) (body : Option Json)
        → is_delete method ≡ false
        → Gives Kept Kept (api_call host method path body) (λ content.
          IsNewest Kept (answered (record { method = method; path = path; body = body }) content))
    unfolding api_call
    api_call-Gives method path body h s kept = log_response-After _ s.log _ h kept

    log_exit-After :
        (args : List String) (log : List Event) (p : Option ℤ × W)
        → Kept log
        → After Kept
            (λ code. IsNewest Kept (ran args code))
            (log_exit args log p).0
            (log_exit args log p).1.log
    log_exit-After args log (some code, w) kept =
        (lasting (ran args code) log refl kept, (log, refl, kept))
    log_exit-After args log (none, w) kept = kept

    pub run_unchecked-Gives :
        (args : List String)
        → Gives Kept Kept (run_unchecked host args) (λ code. IsNewest Kept (ran args code))
    unfolding run_unchecked
    run_unchecked-Gives args s kept = log_exit-After args s.log _ kept

    pub run_command-Gives :
        (args : List String) → Gives Kept Kept (run_command host args) (Succeeded Kept args)
    unfolding run_command
    run_command-Gives args =
        >>=-Gives Kept Kept (λ code. IsNewest Kept (ran args code)) _ (run_unchecked host args) _
          (run_unchecked-Gives args)
          λ code.
            if-Gives _ Kept _ (is_success code) (return tt) (raise (command_failed code))
              (λ good s h. (h.0, (code, good, h.1))) (λ _ s h. h.0)

  module _ {S A : Type 0} (deadline : ℕ) (interval : ℤ) (round : S → Script W (Turn S A))
      (Result : A → List Event → Type 0) where
    go_on-Gives :
        (next_rounds : S → Script W (Option A))
        → ((s : S) → Gives Kept Kept (next_rounds s) (Found Result))
        → (turn : Turn S A)
        → Gives
            (λ log. Kept log × Finishes Result turn log)
            Kept
            (go_on host interval next_rounds turn)
            (Found Result)
    go_on-Gives next_rounds h (finished a) = λ state k. k
    go_on-Gives next_rounds h (again s) =
        >>=-Gives _ Kept Anything (Found Result) (sleep host interval) _
          (λ state k. sleep-Gives interval state k.0) (λ _ state k. h s state k.0)

    pub poll-Gives :
        ((s : S) → Gives Kept Kept (round s) (Finishes Result))
        → (fuel : ℕ) (s : S)
        → Gives Kept Kept (poll host deadline interval round fuel s) (Found Result)
    unfolding poll
    poll-Gives h zero s = λ state kept. kept
    poll-Gives h (suc fuel) s =
        >>=-Gives Kept Kept Anything (Found Result) (monotonic host) _ monotonic-Gives λ now.
          if-Gives _ Kept (Found Result) (ltb now deadline) _ (return none)
            (λ _.
              >>=-Gives _ Kept (Finishes Result) (Found Result) (round s) _
                (λ state k. h s state k.0)
                (go_on-Gives (poll host deadline interval round fuel) (poll-Gives h fuel)))
            (λ _ state k. k)

    -- The loop and what follows it.
    pub poll_after-Gives :
        ((s : S) → Gives Kept Kept (round s) (Finishes Result))
        → (otherwise : Script W A) → Gives Kept Kept otherwise Result
        → (fuel : ℕ) (s : S)
        → Gives Kept Kept
            (poll host deadline interval round fuel s >>= after_deadline otherwise)
            Result
    poll_after-Gives h otherwise k fuel s =
        >>=-Gives Kept Kept (Found Result) Result (poll host deadline interval round fuel s) _
          (poll-Gives h fuel s) (λ result. after result)
      where
        after :
            (result : Option A)
            → Gives
                (λ log. Kept log × Found Result result log)
                Kept
                (after_deadline otherwise result)
                Result
        after (some a) = λ state p. p
        after none = λ state p. k state p.0
