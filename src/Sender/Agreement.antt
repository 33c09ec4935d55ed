-- ===== src/Sender/Agreement.antt =====
-- The statistics report and the counters, through each step of a run.
use predictive_autoscaling_k.Reports.Statistics as Counts
use mathlib.Core.Path.{subst}
use mathlib.Core.Option
use mathlib.Core.Option.{some-injective}
use predictive_autoscaling_k.Common.{
  Bool, Bool-cases, List, Option, [], false, if◌then◌else◌, inl, inr, ltb, none, refl, some, true,
  ℕ, ◌+◌, ◌-◌, ◌∙◌, ◌∷◌, ◌≡◌,
}
use predictive_autoscaling_k.Reports.Incidents.{IncidentReportWriter}
use predictive_autoscaling_k.Reports.Requests.{RequestReportWriter}
use predictive_autoscaling_k.Reports.Statistics.{Column, StatisticsReportWriter, planned, scheduled}
use predictive_autoscaling_k.Reports.Statistics.Totals.{
  recorded, recorded-flush_closed, recorded-reset,
}
use predictive_autoscaling_k.Script.{ScriptPoint}
use predictive_autoscaling_k.Sender.{
  BacklogItem, Clock, Phase, Sender, SenderConfig, admit, at_head, complete_scheduling, count,
  discard_task, flush_if_due, flush_reports, init, launch_or_backlog, put_token, request_at,
  returned, start_request_task, waiting_event, waiting_token,
}
use predictive_autoscaling_k.Sender.Backlog.{
  backlog_iterate, backlog_take, backlog_wake, count_expired, is_expired, iterate_on, take_on,
}
use predictive_autoscaling_k.Sender.Request.{
  Outcome, count_outcome, execute_request, raised, responded,
}
use predictive_autoscaling_k.Sender.Statistics.{
  Agrees, count_expired-Agrees, count_response-Agrees, counter_of, enqueue_or_drop-Agrees,
  handle_fault-Agrees, plan_second-Agrees, scheduled-Agrees, start_request_task-Agrees,
}
use predictive_autoscaling_k.Sender.Steps.{
  Reach, Step, completes, discards, finishes, flushes, flushes_if_due, here, iterates, launches,
  plans, takes, then_step, wakes,
}
use predictive_autoscaling_k.Workload.{PreparedRequest, WorkloadConfig}

-- Nothing but a counter and the statistics writer matters to a column.
quiet :
    (c : Column) (s : Sender) (tokens : ℕ) (queue : List BacklogItem) (running ending : ℕ)
    (phase : Phase) (complete : Bool)
    → Agrees c s
    → Agrees c (record s {
      token_queue = tokens;
      backlog_queue = queue;
      executing = running;
      finishing = ending;
      backlog_phase = phase;
      scheduling_complete = complete;
    })
quiet planned s tokens queue running ending phase complete h = h
quiet _ s tokens queue running ending phase complete h = h

quiet_flush :
    (c : Column) (s : Sender) (statistics : StatisticsReportWriter) (requests : RequestReportWriter)
    (incidents : IncidentReportWriter) (time : ℕ)
    → recorded c statistics ≡ recorded c s.statistics_writer
    → Agrees c s
    → Agrees c (record s {
      statistics_writer = statistics;
      report_writer = requests;
      incident_writer = incidents;
      last_flush_monotonic = time;
    })
quiet_flush planned s statistics requests incidents time e h = e ∙ h
quiet_flush _ s statistics requests incidents time e h = e ∙ h

admit-Agrees :
    (c : Column) (t : Clock) (request : PreparedRequest) (s : Sender)
    → Agrees c s
    → Agrees c (admit t request s)
unfolding admit
admit-Agrees c t request s h = elim (Bool-cases (ltb 0 s.token_queue)) [
  | inl e ↦ rw e (
      start_request_task-Agrees c request t.bucket false
        (record s { token_queue = s.token_queue - 1 })
        (quiet c s (s.token_queue - 1) s.backlog_queue s.executing s.finishing s.backlog_phase
          s.scheduling_complete h))
  | inr e ↦ rw e (enqueue_or_drop-Agrees c t request s h)
]

launch_or_backlog-Agrees :
    (c : Column) (t : Clock) (i j : ℕ) (s s' : Sender)
    → Agrees c s
    → launch_or_backlog t i j s ≡ some s'
    → Agrees c s'
unfolding launch_or_backlog
launch_or_backlog-Agrees c t i j s s' h e = launched (request_at s i j) e
  where
    one : Sender
    one = count t.bucket scheduled 1 (record s { scheduled_requests = s.scheduled_requests + 1 })

    launched :
        (o : Option PreparedRequest)
        → elim o [ none ↦ none | some request ↦ some (admit t request one) ] ≡ some s'
        → Agrees c s'
    launched none k = cc
    launched (some request) k =
        subst (Agrees c) (some-injective _ _ k)
          (admit-Agrees c t request one (scheduled-Agrees c t s h))

iterate_on-Agrees :
    (c : Column) (items : List BacklogItem) (t : Clock) (s : Sender)
    → Agrees c s
    → Agrees c (iterate_on items t s)
iterate_on-Agrees c [] t s h = empty s.scheduling_complete
  where
    in_phase : (p : Phase) → Agrees c (record s { backlog_phase = p })
    in_phase p =
        quiet c s s.token_queue s.backlog_queue s.executing s.finishing p s.scheduling_complete h

    empty :
        (b : Bool)
        → Agrees c (
            if b
            then record s { backlog_phase = returned }
            else record s { backlog_phase = waiting_event })
    empty true = in_phase returned
    empty false = in_phase waiting_event
iterate_on-Agrees c (item ∷ rest) t s h = elim (Bool-cases (is_expired t item s)) [
  | inl e ↦ rw e (
      count_expired-Agrees c t _ (
        quiet c s s.token_queue rest s.executing s.finishing s.backlog_phase s.scheduling_complete
          h))
  | inr e ↦ rw e (
      quiet c s s.token_queue s.backlog_queue s.executing s.finishing waiting_token
        s.scheduling_complete h)
]

put_token-Agrees : (c : Column) (s s' : Sender) → Agrees c s → put_token s ≡ some s' → Agrees c s'
unfolding put_token
put_token-Agrees c s s' h e = put_on (ltb s.token_queue s.max_inflight) e
  where
    put_on :
        (b : Bool)
        → (if b then some (record s { token_queue = s.token_queue + 1 }) else none) ≡ some s'
        → Agrees c s'
    put_on true k = subst (Agrees c) (some-injective _ _ k) (
        quiet c s (s.token_queue + 1) s.backlog_queue s.executing s.finishing s.backlog_phase
          s.scheduling_complete h)
    put_on false k = cc

take_on-Agrees :
    (c : Column) (items : List BacklogItem) (t : Clock) (s s' : Sender)
    → Agrees c s
    → take_on items t s ≡ some s'
    → Agrees c s'
take_on-Agrees c [] t s s' h e = put_token-Agrees c s s' h e
take_on-Agrees c (item ∷ rest) t s s' h e = taken (is_expired t item s) e
  where
    popped : Sender
    popped = record s { backlog_queue = rest }

    kept : Agrees c popped
    kept =
        quiet c s s.token_queue rest s.executing s.finishing s.backlog_phase s.scheduling_complete h

    expired :
        (o : Option Sender)
        → put_token popped ≡ o
        → Option.map (count_expired t) o ≡ some s'
        → Agrees c s'
    expired none p k = cc
    expired (some v) p k =
        subst (Agrees c) (some-injective _ _ k)
          (count_expired-Agrees c t v (put_token-Agrees c popped v kept p))

    taken :
        (b : Bool)
        → (if b
            then Option.map (count_expired t) (put_token popped)
            else some (start_request_task item.request t.bucket true popped))
          ≡ some s'
        → Agrees c s'
    taken true k = expired (put_token popped) refl k
    taken false k =
        subst (Agrees c) (some-injective _ _ k)
          (start_request_task-Agrees c item.request t.bucket true popped kept)

count_outcome-Agrees :
    (c : Column) (t : Clock) (request : PreparedRequest) (outcome : Outcome) (s : Sender)
    → Agrees c s
    → Agrees c (count_outcome t request outcome s)
unfolding count_outcome
count_outcome-Agrees c t request (responded status none) s h = count_response-Agrees c t status s h
count_outcome-Agrees c t request (responded status (some fault)) s h =
    handle_fault-Agrees c t request fault _ (count_response-Agrees c t status s h)
count_outcome-Agrees c t request (raised fault) s h = handle_fault-Agrees c t request fault s h

execute_request-Agrees :
    (c : Column) (t : Clock) (request : PreparedRequest) (outcome : Outcome) (s s' : Sender)
    → Agrees c s
    → execute_request t request outcome s ≡ some s'
    → Agrees c s'
unfolding execute_request
execute_request-Agrees c t request outcome s s' h e =
    let v = count_outcome t request outcome s in
    put_token-Agrees c _ s'
      (quiet c v v.token_queue v.backlog_queue (v.executing - 1) (v.finishing + 1) v.backlog_phase
        v.scheduling_complete (count_outcome-Agrees c t request outcome s h))
      e

flush_reports-Agrees :
    (c : Column) (final : Bool) (t : Clock) (s : Sender)
    → Agrees c s
    → Agrees c (flush_reports final t s)
unfolding flush_reports
flush_reports-Agrees c final t s h =
    quiet_flush c s _ _ _ s.last_flush_monotonic
      (recorded-flush_closed c final t.bucket s.statistics_writer) h

flush_if_due-Agrees :
    (c : Column) (t : Clock) (s : Sender) → Agrees c s → Agrees c (flush_if_due t s)
unfolding flush_if_due
flush_if_due-Agrees c t s h =
    elim (Bool-cases (ltb (t.monotonic - s.last_flush_monotonic) s.flush_interval)) [
      | inl e ↦ rw e h
      | inr e ↦ rw e (
          quiet_flush c s _ _ _ t.monotonic
            (recorded-flush_closed c false t.bucket s.statistics_writer) h)
    ]

Step-Agrees :
    {clean : Bool} (c : Column) (s s' : Sender) → Step clean s s' → Agrees c s → Agrees c s'
unfolding backlog_iterate backlog_take backlog_wake discard_task complete_scheduling
Step-Agrees c s _ (plans i n) h = plan_second-Agrees c i n s h
Step-Agrees c s s' (launches t i j e) h = launch_or_backlog-Agrees c t i j s s' h e
Step-Agrees c s _ (iterates t p) h = iterate_on-Agrees c s.backlog_queue t s h
Step-Agrees c s _ (wakes p) h =
    quiet c s s.token_queue s.backlog_queue s.executing s.finishing at_head s.scheduling_complete h
Step-Agrees c s s' (takes t p some_token e) h =
    take_on-Agrees c s.backlog_queue t _ s'
      (quiet c s (s.token_queue - 1) s.backlog_queue s.executing s.finishing at_head
        s.scheduling_complete h)
      e
Step-Agrees c s s' (finishes t request outcome running p e) h =
    execute_request-Agrees c t request outcome s s' h e
Step-Agrees c s _ (discards p) h =
    quiet c s s.token_queue s.backlog_queue s.executing (s.finishing - 1) s.backlog_phase
      s.scheduling_complete h
Step-Agrees c s _ completes h =
    quiet c s s.token_queue s.backlog_queue s.executing s.finishing s.backlog_phase true h
Step-Agrees c s _ (flushes t final) h = flush_reports-Agrees c final t s h
Step-Agrees c s _ (flushes_if_due t) h = flush_if_due-Agrees c t s h

Reach-Agrees :
    {clean : Bool} (c : Column) (s s' : Sender) → Agrees c s → Reach clean s s' → Agrees c s'
Reach-Agrees c s _ h here = h
Reach-Agrees c s _ h (then_step {t = t} {u = u} r st) =
    Step-Agrees c t u st (Reach-Agrees c s t h r)

init-Agrees :
    (c : Column) (config : SenderConfig) (w : WorkloadConfig) (timeline : List ScriptPoint)
    (first : ℕ)
    → Agrees c (init config w timeline first)
unfolding init
init-Agrees planned config w timeline first = recorded-reset planned first Counts.new_writer
init-Agrees c config w timeline first = recorded-reset c first Counts.new_writer

-- At every point of a run, what the statistics writer has of each of the twelve columns, in memory and in
-- its file together, is the counter of the heartbeat.
pub run-Agrees :
    (clean : Bool) (column : Column) (c : SenderConfig) (w : WorkloadConfig)
    (timeline : List ScriptPoint) (first : ℕ) (s : Sender)
    → Reach clean (init c w timeline first) s
    → recorded column s.statistics_writer ≡ counter_of column s
run-Agrees clean column c w timeline first s r =
    Reach-Agrees column (init c w timeline first) s (init-Agrees column c w timeline first) r
