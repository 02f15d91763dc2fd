-- ===== src/Manager/Refinement/Rpcs.antt =====
-- dmlf/manager/cluster_manager.py: the changes that the RPC handlers make.
use distributed_ml_training.Base.{
  ℕ, pos, int_ltb, ◌≡◌, refl, sym, subst, inl, inr, Option, none, some, List, [], ◌∷◌, ◌++◌, true,
  false, any, String, arith, Bool-cases, Option-cases,
}
use distributed_ml_training.Registry.JobState
use distributed_ml_training.Registry.NodeState
use distributed_ml_training.Registry.Schema.{Job, Registry}
use distributed_ml_training.Registry.Nodes.{register_node, update_heartbeat, update_node_state}
use distributed_ml_training.Registry.Jobs.{
  JobDict, dict_of_row, row_of_dict, has_job_id, insert_job, update_job_status, update_job_retries,
  find_job, get_job,
}
use distributed_ml_training.Registry.Rows.{absent_key, find_job-In}
use distributed_ml_training.Queue.{JobQueue, submit_job, retry_job}
use distributed_ml_training.Queue.Order.{submit_job-Enqueued, retry_job-Enqueued}
use distributed_ml_training.Manager.State.{Manager, write_log}
use distributed_ml_training.Manager.Rpcs.{
  RegistrationRequest, HeartbeatRequest, JobStatusRequest, JobSubmitRequest, LogMessage, Report,
  failure, completion, other, register_node_rpc, send_heartbeat, open_stream, next_command,
  report_job_status, report_failure, report_completion, observe_completion, stream_logs,
  submit_job_rpc, job_data, classify,
}
use distributed_ml_training.Manager.Lifecycle.{
  view, Change, submitted, retried, finished, Changes, here, one-Change,
}

-- The handlers that touch no job.
pub view-register_node_rpc :
    (now : ℕ) (id secret : String) (q : RegistrationRequest) (m : Manager)
    → view (register_node_rpc now id secret q m).0.jobs ≡ view m.jobs
unfolding register_node_rpc register_node
view-register_node_rpc now id secret q m = refl

pub view-send_heartbeat :
    (now : ℕ) (q : HeartbeatRequest) (m : Manager)
    → view (send_heartbeat now q m).jobs ≡ view m.jobs
unfolding send_heartbeat update_heartbeat
view-send_heartbeat now q m = refl

pub view-open_stream : (id : String) (m : Manager) → view (open_stream id m).jobs ≡ view m.jobs
unfolding open_stream
view-open_stream id m = ground arith

pub view-next_command : (id : String) (m : Manager) → view (next_command id m).0.jobs ≡ view m.jobs
unfolding next_command
view-next_command id m = ground arith

pub view-stream_logs :
    (es : List LogMessage) (m : Manager) → view (stream_logs es m).jobs ≡ view m.jobs
unfolding stream_logs write_log
view-stream_logs [] m = refl
view-stream_logs (e ∷ es) m = view-stream_logs es _

pub insert_job-eq-some :
    (now : ℕ) (d : JobDict) (r r' : Registry)
    → insert_job now d r ≡ some r'
    → (any (has_job_id d.job_id) r.jobs ≡ false) × (r'.jobs ≡ r.jobs ++ row_of_dict now d ∷ [])
unfolding insert_job
insert_job-eq-some now d r r' h = ground arith

-- A submission is one change if the row is new, and changes no job otherwise.
pub submit_job_rpc-Changes :
    (now : ℕ) (id : String) (q : JobSubmitRequest) (m : Manager)
    → Changes (view (submit_job_rpc now id q m).0.jobs) (view m.jobs)
unfolding submit_job_rpc job_data write_log
submit_job_rpc-Changes now id q m = elim (Option-cases (submit_job now (job_data id q) m.jobs)) [
  | inl e ↦ rw (e, submit_job_rpc) here
  | inr (jobs, e) ↦
      let (enqueued, inserted) = submit_job-Enqueued now (job_data id q) m.jobs jobs e in
      let (absent, rows) = insert_job-eq-some now _ m.registry jobs.registry inserted in
      rw (e, submit_job_rpc)
        (one-Change (
          submitted now (job_data id q) (absent_key id m.registry.jobs absent).1 refl rows
            enqueued))
]

-- The view of a manager whose registry has other rows.
pub retry_job-Change :
    (j : Job) (q : JobQueue)
    → find_job j.job_id q.registry.jobs ≡ some j
    → int_ltb (pos j.retries) j.max_retries ≡ true
    → Change (view q) (view (retry_job (dict_of_row j) q))
unfolding retry_job update_job_retries dict_of_row
retry_job-Change j q found room = retried j found room refl (retry_job-Enqueued (dict_of_row j) q)

report_failure-Changes :
    (now : ℕ) (q : JobStatusRequest) (j : Job) (m : Manager)
    → find_job q.job_id m.registry.jobs ≡ some j
    → Changes (view (report_failure now q j m).jobs) (view m.jobs)
unfolding report_failure write_log update_node_state update_job_status
report_failure-Changes now q j m found = elim (Bool-cases (int_ltb (pos j.retries) j.max_retries)) [
  | inl room ↦
      let q' : JobQueue = record m.jobs {
        registry = update_node_state q.node_id NodeState.idle m.registry;
      } in
      let named = (find_job-In q.job_id m.registry.jobs j found).1 in
      rw (room, report_failure)
        (one-Change (
          retry_job-Change j q'
            (subst (λ (k : String). find_job k m.registry.jobs ≡ some j) (sym named) found) room))
  | inr full ↦
      rw (full, report_failure)
        (one-Change (finished now q.job_id JobState.failed (pos 1) (inr refl) refl refl))
]

pub jobs-observe_completion :
    (now : ℕ) (d : Option JobDict) (m : Manager) → (observe_completion now d m).jobs ≡ m.jobs
unfolding observe_completion
jobs-observe_completion now none m = refl
jobs-observe_completion now (some d) m = ground arith

report_completion-Changes :
    (now : ℕ) (q : JobStatusRequest) (m : Manager)
    → Changes (view (report_completion now q m).jobs) (view m.jobs)
unfolding report_completion update_node_state update_job_status
report_completion-Changes now q m =
    rw jobs-observe_completion
      (one-Change (finished now q.job_id JobState.completed (pos 0) (inl refl) refl refl))

pub report_job_status-Changes :
    (now : ℕ) (q : JobStatusRequest) (m : Manager)
    → Changes (view (report_job_status now q m).jobs) (view m.jobs)
unfolding report_job_status get_job
report_job_status-Changes now q m =
    go (classify q.status) (find_job q.job_id m.registry.jobs) refl refl
  where
    go :
        (c : Report) (o : Option Job)
        → classify q.status ≡ c
        → find_job q.job_id m.registry.jobs ≡ o
        → Changes (view (report_job_status now q m).jobs) (view m.jobs)
    go failure none e f = rw (e, f, report_job_status) here
    go failure (some j) e f = rw (e, f, report_job_status) (report_failure-Changes now q j m f)
    go completion o e f = rw (e, report_job_status) (report_completion-Changes now q m)
    go other o e f = rw (e, report_job_status) here
