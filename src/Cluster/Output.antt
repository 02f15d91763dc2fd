-- ===== src/Cluster/Output.antt =====
-- dmlf/agent/launcher.py: the log thread of a job as a client of `StreamLogs` and `ReportJobStatus`.
pub mod Cut
use distributed_ml_training.Base.{
  ℕ, zero, suc, ℤ, pos, int_eqb, String, Option, none, some, List, [], ◌∷◌, if◌then◌else◌, take,
}
use distributed_ml_training.Text.{strip}
use distributed_ml_training.Manager.State.{Manager}
use distributed_ml_training.Manager.Rpcs.{
  LogMessage, JobStatusRequest, stream_logs, report_job_status,
}

-- The request at the end of `log_generator`.
unfoldable pub end_report : (node_id job_id : String) (exit_code : ℤ) → JobStatusRequest
end_report node job code = record {
  node_id = node;
  job_id = job;
  status = if int_eqb code (pos 0) then "completed" else "failed";
}

-- `log_generator` when it is asked for `asks` messages, from its line `n` on: what it yields, and the
-- report that it sends when it is asked for one more than its lines. gRPC asks until the call ends; the
-- generator stays where it is then. `clock` formats the time of each message.
unfoldable pub log_generator :
    (clock : ℕ → String) (node_id job_id : String) (exit_code : ℤ) (asks n : ℕ)
    → List String
    → List LogMessage × Option JobStatusRequest
unfolding strip end_report
log_generator clock node job code zero n lines = ([], none)
log_generator clock node job code (suc asks) n [] = ([], some (end_report node job code))
log_generator clock node job code (suc asks) n (line ∷ lines) =
    let (messages, report) = log_generator clock node job code asks (suc n) lines in
    (
      record {
        timestamp = clock n;
        node_id = node;
        job_id = job;
        level = "INFO";
        message = strip line;
      }
          ∷ messages,
      report,
    )

-- The manager's handlers on what the thread sends, of whose messages the first `delivered` come to it.
unfoldable pub stream_output :
    (now delivered : ℕ) → List LogMessage × Option JobStatusRequest → Manager → Manager
unfolding stream_logs report_job_status
stream_output now delivered (messages, none) m = stream_logs (take delivered messages) m
stream_output now delivered (messages, some q) m =
    report_job_status now q (stream_logs (take delivered messages) m)
