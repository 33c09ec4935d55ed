-- ===== src/Reports/Tests.antt =====
-- The report writers on short runs: counts in time and late, two flushes, and files of two workers.
use predictive_autoscaling_k.Reports.Statistics as Counts
use predictive_autoscaling_k.Reports.Requests as Report
use predictive_autoscaling_k.Reports.Incidents as Incidents
use predictive_autoscaling_k.Reports.Requests.Flushing as Runs
use predictive_autoscaling_k.Common.{
  List, Option, [], arith, false, none, refl, some, true, ℕ, ◌∷◌, ◌≡◌, ◌≤◌,
}
use predictive_autoscaling_k.Reports.Incidents.{Incident, flushes, records}
use predictive_autoscaling_k.Reports.Requests.{ReportRow, merge_request_reports}
use predictive_autoscaling_k.Reports.Requests.Exact.{run-final}
use predictive_autoscaling_k.Reports.Requests.Flushing.{run-entries_of}
use predictive_autoscaling_k.Reports.Requests.Merging.{files_of, merge_request_reports-total_of}
use predictive_autoscaling_k.Reports.Requests.Sorting.{entries_of, total_of}
use predictive_autoscaling_k.Reports.Statistics.{
  StatisticsReportWriter, add_count, counters_at, planned, record_count, started,
}
use predictive_autoscaling_k.Reports.Statistics.Coverage.{
  IsContiguous, flush_closed-IsContiguous, reset-IsContiguous,
}
use predictive_autoscaling_k.Reports.Statistics.Late.{flush_all, late_count_stays}
use predictive_autoscaling_k.Reports.Statistics.Pending.{
  IsTimely, flush_closed-final, record_count-IsTimely,
}
use predictive_autoscaling_k.Reports.Statistics.Totals.{column_sum, recorded}

abbrev fresh : StatisticsReportWriter
fresh = Counts.reset 100 Counts.new_writer

abbrev counted : StatisticsReportWriter
counted = record_count 102 started 3 fresh

fresh-IsTimely : IsTimely 99 fresh
unfolding Counts.reset
fresh-IsTimely = record {
  begun = (100, refl);
  flushed = refl;
  unique = tt;
  open_seconds = tt;
  seen_seconds = tt;
}

counted-IsTimely : IsTimely 99 counted
counted-IsTimely = record_count-IsTimely 99 102 3 started fresh fresh-IsTimely (omega arith)

flush_closed-final_example :
    ((Counts.flush_closed true 102 counted).counts ≡ [])
    × (column_sum started (Counts.flush_closed true 102 counted).file ≡ recorded started counted)
flush_closed-final_example = flush_closed-final 99 102 started counted counted-IsTimely

flush_closed-IsContiguous_example : IsContiguous 100 (Counts.flush_closed false 102 fresh)
flush_closed-IsContiguous_example =
    flush_closed-IsContiguous 100 false 102 fresh
      (reset-IsContiguous 100 Counts.new_writer (omega arith))

late_count_stays_example :
    counters_at 98
      (flush_all ((false, 103) ∷ (true, 104) ∷ []) (record_count 98 planned 5 fresh)).counts
    ≡ add_count planned 5 (counters_at 98 fresh.counts)
unfolding Counts.reset
late_count_stays_example =
    late_count_stays 98 99 5 planned ((false, 103) ∷ (true, 104) ∷ []) fresh refl (omega arith)

abbrev two_flushes : List Runs.Op
two_flushes =
    Runs.starts 100 "/demand/html"
    ∷ Runs.starts 101 "/demand/html"
    ∷ Runs.flushes false 101
    ∷ Runs.starts 101 "/demand/html"
    ∷ []

run-final_example :
    total_of
      (101, "/demand/html")
      (Report.flush_closed true 101 (Runs.run two_flushes Report.reset)).file
    ≡ 2
unfolding Report.key_eq
run-final_example =
    run-final two_flushes (101, "/demand/html") 101
      (omega arith, (omega arith, (omega arith, (omega arith, tt))))

run-entries_of_example :
    entries_of (100, "/demand/html") (Runs.run two_flushes Report.reset).file ≤ 1
run-entries_of_example = run-entries_of two_flushes (100, "/demand/html")

abbrev report_row : ℕ → ReportRow
report_row n = record { second = some 100; url = some "/demand/html"; count = some n }

abbrev two_files : List (Option (List ReportRow))
two_files = some (report_row 2 ∷ []) ∷ none ∷ some (report_row 3 ∷ []) ∷ []

merge_request_reports-total_of_example :
    (total_of (100, "/demand/html") (merge_request_reports two_files)
      ≡ files_of (100, "/demand/html") two_files)
    × (entries_of (100, "/demand/html") (merge_request_reports two_files) ≤ 1)
merge_request_reports-total_of_example =
    merge_request_reports-total_of (100, "/demand/html") two_files

abbrev connection_reset : Incident
connection_reset = record {
  timestamp = 7;
  second_bucket = 100;
  url = "/demand/html";
  incident_type = "client_error";
  message = "Connection reset by peer";
}

flush-run_example :
    (Incidents.flush (Incidents.run (records connection_reset ∷ flushes ∷ []) Incidents.reset)).file
    ≡ connection_reset ∷ []
flush-run_example = Incidents.flush-run (records connection_reset ∷ flushes ∷ [])
