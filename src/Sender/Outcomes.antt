-- ===== src/Sender/Outcomes.antt =====
-- What becomes of the requests that were started.
use predictive_autoscaling_k.Common.{
  Bool, List, arith, false, none, refl, some, true, ℕ, ◌+◌, ◌-◌, ◌<◌, ◌∙◌, ◌≡◌, ◌≤◌,
}
use predictive_autoscaling_k.Script.{ScriptPoint}
use predictive_autoscaling_k.Sender.{
  Clock, Sender, SenderConfig, complete_scheduling, discard_task, flush_if_due, flush_reports, init,
  is_done, launch_or_backlog, put_token,
}
use predictive_autoscaling_k.Sender.Backlog.{backlog_iterate, backlog_take, backlog_wake}
use predictive_autoscaling_k.Sender.Balance.{run-IsBalanced}
use predictive_autoscaling_k.Sender.Dispatch.{plan_second}
use predictive_autoscaling_k.Sender.Request.{
  Fault, Outcome, client_error, count_outcome, count_response, execute_request, handle_fault,
  raised, responded, timeout, unexpected_error,
}
use predictive_autoscaling_k.Sender.Steps.{
  IsClean, Permits, Reach, Step, completes, discards, finishes, flushes, flushes_if_due, here,
  iterates, launches, plans, takes, then_step, wakes,
}
use predictive_autoscaling_k.Workload.{PreparedRequest, WorkloadConfig}

abbrev pub outcomes : Sender → ℕ
outcomes s = s.completed_requests + s.failed_requests + s.timed_out_requests

-- Each started request has been counted by its outcome, or still holds a token; with `clean`, once.
abbrev pub IsCounted : Bool → Sender → Type 0
IsCounted true s = s.started_requests ≡ outcomes s + s.executing
IsCounted false s = s.started_requests ≤ outcomes s + s.executing

launch_or_backlog-IsCounted :
    (clean : Bool) (t : Clock) (i j : ℕ) (s s' : Sender)
    → IsCounted clean s
    → launch_or_backlog t i j s ≡ some s'
    → IsCounted clean s'
unfolding launch_or_backlog
launch_or_backlog-IsCounted true t i j s s' h e = ground arith
launch_or_backlog-IsCounted false t i j s s' h e = ground arith

backlog_take-IsCounted :
    (clean : Bool) (t : Clock) (s s' : Sender)
    → IsCounted clean s
    → backlog_take t s ≡ some s'
    → IsCounted clean s'
unfolding backlog_take
backlog_take-IsCounted true t s s' h e = ground arith
backlog_take-IsCounted false t s s' h e = ground arith

backlog_iterate-IsCounted :
    (clean : Bool) (t : Clock) (s : Sender)
    → IsCounted clean s
    → IsCounted clean (backlog_iterate t s)
unfolding backlog_iterate
backlog_iterate-IsCounted true t s h = ground arith
backlog_iterate-IsCounted false t s h = ground arith

handle_fault-outcomes :
    (t : Clock) (request : PreparedRequest) (fault : Fault) (s : Sender)
    → (outcomes (handle_fault t request fault s) ≡ outcomes s + 1)
      × ((handle_fault t request fault s).started_requests ≡ s.started_requests)
      × ((handle_fault t request fault s).executing ≡ s.executing)
unfolding handle_fault
handle_fault-outcomes t request timeout s = omega arith
handle_fault-outcomes t request (client_error m) s = ground arith
handle_fault-outcomes t request (unexpected_error m) s = ground arith

count_response-outcomes :
    (t : Clock) (status : ℕ) (s : Sender)
    → (outcomes (count_response t status s) ≡ outcomes s + 1)
      × ((count_response t status s).started_requests ≡ s.started_requests)
      × ((count_response t status s).executing ≡ s.executing)
unfolding count_response
count_response-outcomes t status s = ground arith

-- How often an outcome counts its request.
abbrev pub times_counted : Outcome → ℕ
times_counted (responded status none) = 1
times_counted (responded status (some fault)) = 2
times_counted (raised fault) = 1

count_outcome-outcomes :
    (t : Clock) (request : PreparedRequest) (outcome : Outcome) (s : Sender)
    → (outcomes (count_outcome t request outcome s) ≡ outcomes s + times_counted outcome)
      × ((count_outcome t request outcome s).started_requests ≡ s.started_requests)
      × ((count_outcome t request outcome s).executing ≡ s.executing)
unfolding count_outcome
count_outcome-outcomes t request (responded status none) s = count_response-outcomes t status s
count_outcome-outcomes t request (responded status (some fault)) s =
    let one = count_response-outcomes t status s in
    let two = handle_fault-outcomes t request fault (count_response t status s) in
    (omega (arith, one.0, two.0), two.1 ∙ one.1, two.2 ∙ one.2)
count_outcome-outcomes t request (raised fault) s = handle_fault-outcomes t request fault s

count_outcome-token_queue :
    (t : Clock) (request : PreparedRequest) (outcome : Outcome) (s : Sender)
    → (count_outcome t request outcome s).token_queue ≡ s.token_queue
unfolding count_outcome handle_fault count_response
count_outcome-token_queue t request (responded status none) s = ground arith
count_outcome-token_queue t request (responded status (some timeout)) s = ground arith
count_outcome-token_queue t request (responded status (some (client_error m))) s = ground arith
count_outcome-token_queue t request (responded status (some (unexpected_error m))) s = ground arith
count_outcome-token_queue t request (raised timeout) s = ground arith
count_outcome-token_queue t request (raised (client_error m)) s = ground arith
count_outcome-token_queue t request (raised (unexpected_error m)) s = ground arith

-- A request that ends puts one token back and runs no more. It adds one to the outcomes; but two, when its response was
-- counted and its context manager raised after that. It starts no request.
pub execute_request-outcomes :
    (t : Clock) (request : PreparedRequest) (outcome : Outcome) (s s' : Sender)
    → execute_request t request outcome s ≡ some s'
    → (outcomes s' ≡ outcomes s + times_counted outcome)
      × (s'.started_requests ≡ s.started_requests)
      × (s'.executing ≡ s.executing - 1)
      × (s'.token_queue ≡ s.token_queue + 1)
unfolding execute_request put_token
execute_request-outcomes t request outcome s s' e = ground (
  arith,
  count_outcome-outcomes t request outcome s,
  count_outcome-token_queue t request outcome s,
)

clean-times_counted : (outcome : Outcome) → IsClean outcome → times_counted outcome ≡ 1
clean-times_counted (responded status none) c = refl
clean-times_counted (responded status (some fault)) c = elim c [ ]
clean-times_counted (raised fault) c = refl

times_counted-pos : (outcome : Outcome) → 1 ≤ times_counted outcome
times_counted-pos (responded status none) = omega arith
times_counted-pos (responded status (some fault)) = omega arith
times_counted-pos (raised fault) = omega arith

execute_request-IsCounted :
    (clean : Bool) (t : Clock) (request : PreparedRequest) (outcome : Outcome) (s s' : Sender)
    → Permits clean outcome
    → 0 < s.executing
    → IsCounted clean s
    → execute_request t request outcome s ≡ some s'
    → IsCounted clean s'
execute_request-IsCounted true t request outcome s s' p running h e =
    let (total, same, fewer, _) = execute_request-outcomes t request outcome s s' e in
    omega (arith, total, same, fewer, clean-times_counted outcome p)
execute_request-IsCounted false t request outcome s s' p running h e =
    let (total, same, fewer, _) = execute_request-outcomes t request outcome s s' e in
    omega (arith, total, same, fewer, times_counted-pos outcome)

unchanged :
    (clean : Bool) (s s' : Sender)
    → IsCounted clean s
    → s'.started_requests ≡ s.started_requests
    → outcomes s' ≡ outcomes s
    → s'.executing ≡ s.executing
    → IsCounted clean s'
unchanged true s s' h a b c = omega arith
unchanged false s s' h a b c = omega arith

Step-IsCounted :
    (clean : Bool) (s s' : Sender) → Step clean s s' → IsCounted clean s → IsCounted clean s'
unfolding plan_second backlog_wake discard_task complete_scheduling flush_reports flush_if_due
Step-IsCounted clean s _ (plans i n) h = unchanged clean s _ h refl refl refl
Step-IsCounted clean s s' (launches t i j e) h = launch_or_backlog-IsCounted clean t i j s s' h e
Step-IsCounted clean s _ (iterates t p) h = backlog_iterate-IsCounted clean t s h
Step-IsCounted clean s _ (wakes p) h = unchanged clean s _ h refl refl refl
Step-IsCounted clean s s' (takes t p some_token e) h = backlog_take-IsCounted clean t s s' h e
Step-IsCounted clean s s' (finishes t request outcome running c e) h =
    execute_request-IsCounted clean t request outcome s s' c running h e
Step-IsCounted clean s _ (discards p) h = unchanged clean s _ h refl refl refl
Step-IsCounted clean s _ completes h = unchanged clean s _ h refl refl refl
Step-IsCounted clean s _ (flushes t final) h = unchanged clean s _ h refl refl refl
Step-IsCounted clean s _ (flushes_if_due t) h =
    unchanged clean s _ h (ground arith) (ground arith) (ground arith)

Reach-IsCounted :
    (clean : Bool) (s s' : Sender) → IsCounted clean s → Reach clean s s' → IsCounted clean s'
Reach-IsCounted clean s _ h here = h
Reach-IsCounted clean s _ h (then_step {t = t} {u = u} r st) =
    Step-IsCounted clean t u st (Reach-IsCounted clean s t h r)

-- At every point of a run in which no exception follows a counted response, the requests that were
-- started are those that completed, failed or timed out, each once, and those that still hold a token.
pub run-IsCounted :
    (c : SenderConfig) (w : WorkloadConfig) (timeline : List ScriptPoint) (first : ℕ) (s : Sender)
    → Reach true (init c w timeline first) s
    → s.started_requests ≡ outcomes s + s.executing
unfolding init
run-IsCounted c w timeline first s r = Reach-IsCounted true (init c w timeline first) s refl r

-- In a run in which no exception follows a counted response, when the heartbeat says `done`, every scheduled request has completed, failed, timed out
-- or been dropped, each in exactly one of these counts.
pub is_done-accounts :
    (c : SenderConfig) (w : WorkloadConfig) (timeline : List ScriptPoint) (first : ℕ) (s : Sender)
    → Reach true (init c w timeline first) s
    → is_done s ≡ true
    → s.scheduled_requests ≡ outcomes s + s.dropped_due_to_capacity
unfolding is_done
is_done-accounts c w timeline first s r d =
    let b = run-IsBalanced true c w timeline first s r in
    let o = run-IsCounted c w timeline first s r in
    ground (arith, b.scheduled_balance, b.enqueued_balance, b.started_balance, o)
