-- ===== src/Sender/Request.antt =====
-- `_execute_request` and `_record_incident_if_relevant`: what the end of a request counts.
use text.Mathlib.Text.{find?}
use predictive_autoscaling_k.Reports.Incidents as Incidents
use predictive_autoscaling_k.Common.{
  Bool, Option, String, false, if◌then◌else◌, leb, none, some, true, ℕ, ◌+◌, ◌-◌,
}
use predictive_autoscaling_k.Reports.Statistics.{completed, failed, timed_out}
use predictive_autoscaling_k.Sender.{Clock, Sender, count, put_token}
use predictive_autoscaling_k.Workload.{PreparedRequest}

-- What an `except` clause of `_execute_request` catches, with the exception's message.
pub data Fault : Type 0 where
  timeout : Fault
  client_error unexpected_error : String → Fault

-- How the request went: a response with a status, whose context manager may raise once it is left, or an
-- exception before there is a response.
pub data Outcome : Type 0 where
  responded : ℕ → Option Fault → Outcome
  raised : Fault → Outcome

abbrev pub mentions_reset : String → Bool
mentions_reset message = elim (find? message "Connection reset by peer") [
  | none ↦ false
  | some _ ↦ true
]

unfoldable pub record_incident_if_relevant :
    Clock → PreparedRequest → String → String → Sender → Sender
record_incident_if_relevant t request incident_type message s =
    if mentions_reset message
    then record s {
      incident_writer =
          Incidents.record_incident
            (record {
              timestamp = t.timestamp;
              second_bucket = t.bucket;
              url = request.report_url;
              incident_type = incident_type;
              message = message;
            })
            s.incident_writer;
    }
    else s

abbrev pub count_failed : Clock → Sender → Sender
count_failed t s = count t.bucket failed 1 (record s { failed_requests = s.failed_requests + 1 })

unfoldable pub handle_fault : Clock → PreparedRequest → Fault → Sender → Sender
unfolding record_incident_if_relevant
handle_fault t request timeout s =
    count t.bucket timed_out 1 (record s { timed_out_requests = s.timed_out_requests + 1 })
handle_fault t request (client_error message) s =
    record_incident_if_relevant t request "client_error" message (count_failed t s)
handle_fault t request (unexpected_error message) s =
    record_incident_if_relevant t request "unexpected_error" message (count_failed t s)

unfoldable pub count_response : Clock → ℕ → Sender → Sender
count_response t status s =
    if leb 400 status
    then count_failed t s
    else count t.bucket completed 1 (record s { completed_requests = s.completed_requests + 1 })

unfoldable pub count_outcome : Clock → PreparedRequest → Outcome → Sender → Sender
unfolding handle_fault count_response
count_outcome t request (responded status none) s = count_response t status s
count_outcome t request (responded status (some fault)) s =
    handle_fault t request fault (count_response t status s)
count_outcome t request (raised fault) s = handle_fault t request fault s

-- `_execute_request` from its last await on, with its `finally`.
unfoldable pub execute_request : Clock → PreparedRequest → Outcome → Sender → Option Sender
unfolding put_token
execute_request t request outcome s =
    let counted = count_outcome t request outcome s in
    put_token
      (record counted { executing = counted.executing - 1; finishing = counted.finishing + 1 })
