-- ===== src/Sender/Overflow.antt =====
-- The returns of tokens to the token queue.
use predictive_autoscaling_k.Common.{
  Bool, Bool-cases, List, [], arith, inl, inr, none, refl, some, true, ℕ, ◌+◌, ◌<◌, ◌∙◌, ◌∷◌, ◌≡◌,
}
use predictive_autoscaling_k.Script.{ScriptPoint}
use predictive_autoscaling_k.Sender.{
  BacklogItem, Clock, Sender, SenderConfig, init, put_token, start_request_task,
}
use predictive_autoscaling_k.Sender.Backlog.{backlog_take, count_expired, is_expired, take_on}
use predictive_autoscaling_k.Sender.Balance.{IsBalanced, run-IsBalanced}
use predictive_autoscaling_k.Sender.Request.{
  Fault, Outcome, client_error, count_outcome, count_response, execute_request, handle_fault,
  raised, responded, timeout, unexpected_error,
}
use predictive_autoscaling_k.Sender.Steps.{Reach}
use predictive_autoscaling_k.Workload.{PreparedRequest, WorkloadConfig}

put_token-total :
    (s : Sender) → s.token_queue < s.max_inflight → (s' : Sender) × (put_token s ≡ some s')
unfolding put_token
put_token-total s h = (record s { token_queue = s.token_queue + 1 }, ground arith)

handle_fault-token_queue :
    (t : Clock) (request : PreparedRequest) (fault : Fault) (s : Sender)
    → ((handle_fault t request fault s).token_queue ≡ s.token_queue)
      × ((handle_fault t request fault s).max_inflight ≡ s.max_inflight)
unfolding handle_fault
handle_fault-token_queue t request timeout s = (refl, refl)
handle_fault-token_queue t request (client_error m) s = ground arith
handle_fault-token_queue t request (unexpected_error m) s = ground arith

count_response-token_queue :
    (t : Clock) (status : ℕ) (s : Sender)
    → ((count_response t status s).token_queue ≡ s.token_queue)
      × ((count_response t status s).max_inflight ≡ s.max_inflight)
unfolding count_response
count_response-token_queue t status s = ground arith

count_outcome-token_queue :
    (t : Clock) (request : PreparedRequest) (outcome : Outcome) (s : Sender)
    → ((count_outcome t request outcome s).token_queue ≡ s.token_queue)
      × ((count_outcome t request outcome s).max_inflight ≡ s.max_inflight)
unfolding count_outcome
count_outcome-token_queue t request (responded status none) s =
    count_response-token_queue t status s
count_outcome-token_queue t request (responded status (some fault)) s =
    let one = count_response-token_queue t status s in
    let two = handle_fault-token_queue t request fault (count_response t status s) in
    (two.0 ∙ one.0, two.1 ∙ one.1)
count_outcome-token_queue t request (raised fault) s = handle_fault-token_queue t request fault s

pub execute_request-total :
    (t : Clock) (request : PreparedRequest) (outcome : Outcome) (s : Sender)
    → IsBalanced s
    → 0 < s.executing
    → (s' : Sender) × (execute_request t request outcome s ≡ some s')
unfolding execute_request
execute_request-total t request outcome s b running =
    let kept = count_outcome-token_queue t request outcome s in
    let full = b.tokens in put_token-total _ (omega (arith, kept.0, kept.1, full))

take_on-total :
    (items : List BacklogItem) (t : Clock) (s : Sender)
    → s.token_queue < s.max_inflight
    → (s' : Sender) × (take_on items t s ≡ some s')
take_on-total [] t s h = put_token-total s h
take_on-total (item ∷ rest) t s h = elim (Bool-cases (is_expired t item s)) [
  | inl e ↦
      let (s', put) = put_token-total (record s { backlog_queue = rest }) h in
      (count_expired t s', rw (e, put) refl)
  | inr e ↦
      (start_request_task item.request t.bucket true (record s { backlog_queue = rest }), rw e refl)
]

pub backlog_take-total :
    (t : Clock) (s : Sender)
    → IsBalanced s
    → 0 < s.token_queue
    → (s' : Sender) × (backlog_take t s ≡ some s')
unfolding backlog_take
backlog_take-total t s b some_token =
    let full = b.tokens in take_on-total s.backlog_queue t _ (omega (arith, full))

-- At every point of a run, a request that ends gives its token back without QueueFull, whatever its
-- outcome.
pub run-execute_request :
    (clean : Bool) (c : SenderConfig) (w : WorkloadConfig) (timeline : List ScriptPoint) (first : ℕ)
    (t : Clock) (request : PreparedRequest) (outcome : Outcome) (s : Sender)
    → Reach clean (init c w timeline first) s
    → 0 < s.executing
    → (s' : Sender) × (execute_request t request outcome s ≡ some s')
run-execute_request clean c w timeline first t request outcome s r =
    execute_request-total t request outcome s (run-IsBalanced clean c w timeline first s r)

-- At every point of a run, the backlog loop that got a token goes on without QueueFull, whether the
-- backlog is empty by then, its head has expired, or the head is started.
pub run-backlog_take :
    (clean : Bool) (c : SenderConfig) (w : WorkloadConfig) (timeline : List ScriptPoint) (first : ℕ)
    (t : Clock) (s : Sender)
    → Reach clean (init c w timeline first) s
    → 0 < s.token_queue
    → (s' : Sender) × (backlog_take t s ≡ some s')
run-backlog_take clean c w timeline first t s r =
    backlog_take-total t s (run-IsBalanced clean c w timeline first s r)
