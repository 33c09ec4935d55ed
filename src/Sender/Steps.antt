-- ===== src/Sender/Steps.antt =====
-- How the pieces of the sender's tasks may follow one another on the event loop, from the start of a run.
use predictive_autoscaling_k.Common.{Bool, false, none, some, true, ℕ, ◌<◌, ◌≡◌}
use predictive_autoscaling_k.Sender.{
  Clock, Sender, at_head, complete_scheduling, discard_task, flush_if_due, flush_reports,
  launch_or_backlog, waiting_event, waiting_token,
}
use predictive_autoscaling_k.Sender.Backlog.{backlog_iterate, backlog_take, backlog_wake}
use predictive_autoscaling_k.Sender.Dispatch.{plan_second}
use predictive_autoscaling_k.Sender.Request.{Outcome, execute_request, raised, responded}
use predictive_autoscaling_k.Workload.{PreparedRequest}

-- An outcome that counts a request once: no exception comes after the response was counted.
abbrev pub IsClean : Outcome → Type 0
IsClean (responded status none) = Unit {0}
IsClean (responded status (some fault)) = ⊥
IsClean (raised fault) = Unit {0}

-- With `clean`, every request ends with an outcome that counts it once.
abbrev pub Permits : Bool → Outcome → Type 0
Permits true outcome = IsClean outcome
Permits false outcome = Unit {0}

-- A piece of code runs. A task of a request runs only while it holds a token, and the backlog loop goes on
-- from the await where it stands, which is `token_queue.get()` only once a token is there.
pub data Step (clean : Bool) (s : Sender) : Sender → Type 0 where
  plans : (second_index assigned : ℕ) → Step clean s (plan_second second_index assigned s)
  launches :
      (t : Clock) (i j : ℕ) {s' : Sender} → launch_or_backlog t i j s ≡ some s' → Step clean s s'
  iterates : (t : Clock) → s.backlog_phase ≡ at_head → Step clean s (backlog_iterate t s)
  wakes : s.backlog_phase ≡ waiting_event → Step clean s (backlog_wake s)
  takes :
      (t : Clock) {s' : Sender}
      → s.backlog_phase ≡ waiting_token
      → 0 < s.token_queue
      → backlog_take t s ≡ some s'
      → Step clean s s'
  finishes :
      (t : Clock) (request : PreparedRequest) (outcome : Outcome) {s' : Sender}
      → 0 < s.executing
      → Permits clean outcome
      → execute_request t request outcome s ≡ some s'
      → Step clean s s'
  discards : 0 < s.finishing → Step clean s (discard_task s)
  completes : Step clean s (complete_scheduling s)
  flushes : (t : Clock) (final : Bool) → Step clean s (flush_reports final t s)
  flushes_if_due : (t : Clock) → Step clean s (flush_if_due t s)

pub data Reach (clean : Bool) (s : Sender) : Sender → Type 0 where
  here : Reach clean s s
  then_step : {t u : Sender} → Reach clean s t → Step clean t u → Reach clean s u
