-- ===== src/Cluster/Output/Cut.antt =====
-- dmlf/agent/launcher.py: what the manager keeps of the output of a job, and when it learns of its end.
use mathlib.Core.List.{append-nil, append_assoc}
use Prim.Native.Nat.{min}
use native.Mathlib.Nat.{zero-min, min-zero, suc-min-suc}
use distributed_ml_training.Base.{
  ℕ, zero, suc, ◌≤◌, ◌<◌, ℤ, ◌≡◌, refl, sym, ap, ◌∙◌, String, none, some, List, [], ◌∷◌, ◌++◌, map,
  length, ltb, take, true, false, Option, arith, if◌then◌else◌, ◌⊎◌, inl, inr, Bool-cases,
}
use distributed_ml_training.Text.{strip}
use distributed_ml_training.Manager.State.{Manager, LogEntry, sent, streamed, write_log}
use distributed_ml_training.Manager.Rpcs.{
  LogMessage, JobStatusRequest, stream_logs, report_job_status,
}
use distributed_ml_training.Agent.Launcher.{log_messages}
use distributed_ml_training.Cluster.Output.{end_report, log_generator, stream_output}

-- The entry of the manager's log for a message.
abbrev pub entry_of : LogMessage → LogEntry
entry_of e = record {
  timestamp = sent e.timestamp;
  node = e.node_id;
  job = e.job_id;
  level = e.level;
  message = streamed (strip e.message);
}

-- The messages come to the end of the log, in order, and nothing else changes.
pub stream_logs_lem :
    (es : List LogMessage) (m : Manager)
    → stream_logs es m ≡ record m { log_file = m.log_file ++ map entry_of es }
unfolding stream_logs write_log
stream_logs_lem [] m = λ i. record m { log_file = sym (append-nil m.log_file) i }
stream_logs_lem (e ∷ es) m = stream_logs_lem es (write_log (entry_of e) m) ∙ λ i. record m {
  log_file = append_assoc m.log_file (entry_of e ∷ []) (map entry_of es) i;
}

take-take : (a b : ℕ) (es : List LogMessage) → take a (take b es) ≡ take (min a b) es
take-take zero b es = rw zero-min refl
take-take (suc a) zero es = rw min-zero refl
take-take (suc a) (suc b) [] = rw suc-min-suc refl
take-take (suc a) (suc b) (e ∷ es) = rw suc-min-suc (ap (◌∷◌ e) (take-take a b es))

-- What the generator yields and reports, by the lines and the number of times that it is asked.
log_generator_lem :
    (clock : ℕ → String) (node job : String) (code : ℤ) (asks n : ℕ) (lines : List String)
    → log_generator clock node job code asks n lines ≡ (
      take asks (log_messages clock node job n lines),
      if ltb (length lines) asks then some (end_report node job code) else none,
    )
unfolding log_generator log_messages
log_generator_lem clock node job code zero n lines =
    let never : ltb (length lines) 0 ≡ false = ground arith in rw never refl
log_generator_lem clock node job code (suc asks) n [] =
    let past : ltb 0 (suc asks) ≡ true = ground arith in rw past refl
log_generator_lem clock node job code (suc asks) n (line ∷ lines) =
    let rest = log_generator_lem clock node job code asks (suc n) lines in
    let shifted : ltb (suc (length lines)) (suc asks) ≡ ltb (length lines) asks = ground arith in
    rw (rest, shifted) refl

-- Whatever number of messages gRPC asks the log thread for before the call of StreamLogs ends, and
-- however many of them come to the manager: its log gets the first of the lines, stripped, in order,
-- up to both numbers. The end of the job is reported exactly if the thread was asked for more messages
-- than the output has lines; otherwise nothing else of the manager changes, the job's row included.
pub stream_output-cut :
    (clock : ℕ → String) (node job : String) (lines : List String) (code : ℤ)
    (asks delivered now : ℕ) (m : Manager)
    → let kept : Manager = record m {
      log_file =
          m.log_file
          ++ map entry_of (take (min delivered asks) (log_messages clock node job 0 lines));
    } in
      (length lines < asks)
        × (stream_output now delivered (log_generator clock node job code asks 0 lines) m
            ≡ report_job_status now (end_report node job code) kept)
      ⊎ (asks ≤ length lines)
        × (stream_output now delivered (log_generator clock node job code asks 0 lines) m ≡ kept)
unfolding stream_output
stream_output-cut clock node job lines code asks delivered now m =
    let messages = log_messages clock node job 0 lines in
    let sends = log_generator_lem clock node job code asks 0 lines in
    let logs : stream_logs (take delivered (take asks messages)) m
        ≡ record m { log_file = m.log_file ++ map entry_of (take (min delivered asks) messages) } =
      stream_logs_lem (take delivered (take asks messages)) m
      ∙ ap (λ (es : List LogMessage). record m { log_file = m.log_file ++ map entry_of es })
          (take-take delivered asks messages) in
    let sent : List LogMessage × Option JobStatusRequest =
      log_generator clock node job code asks 0 lines in
    elim (Bool-cases (ltb (length lines) asks)) [
      | inl past ↦
          let all : sent ≡ (take asks messages, some (end_report node job code)) =
            sends ∙ rw past refl in
          inl (
            ground (arith, past),
            ap (λ s. stream_output now delivered s m) all
                ∙ ap (report_job_status now (end_report node job code)) logs,
          )
      | inr within ↦
          let part : sent ≡ (take asks messages, none) = sends ∙ rw within refl in
          inr (ground (arith, within), ap (λ s. stream_output now delivered s m) part ∙ logs)
    ]
