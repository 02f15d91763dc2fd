-- ===== src/Manager/Refinement/Latency.antt =====
-- dmlf/manager/cluster_manager.py: the observations of the job latency.
use distributed_ml_training.Base.{
  ℕ, suc, ◌≡◌, refl, ap, ◌∙◌, String, some, List, [], ◌∷◌, arith, Bool-cases, inl, inr,
}
use distributed_ml_training.Floats.{Floats}
use distributed_ml_training.Registry.JobState
use distributed_ml_training.Registry.Schema.{Node, Job}
use distributed_ml_training.Registry.Jobs.{JobDict, dict_of_row, get_jobs}
use distributed_ml_training.Allocator.{NodeAllocator}
use distributed_ml_training.Manager.State.{
  Manager, Gauges, launch_job, new_manager, send_command, write_log, inc_jobs_queued,
  dec_jobs_queued, inc_jobs_running, dec_jobs_running, inc_job_retries, set_node_counts,
}
use distributed_ml_training.Manager.Dispatch.{
  payload, send_all, log_allocation, start_job, dispatch_allocated_job,
}
use distributed_ml_training.Manager.Rpcs.{
  register_node_rpc, send_heartbeat, open_stream, next_command, JobStatusRequest, report_failure,
  observe_completion, report_completion, report_job_status, LogMessage, stream_logs, submit_job_rpc,
}
use distributed_ml_training.Manager.Pass.{reserve, place, scheduler_round}
use distributed_ml_training.Manager.Pass.Cases.{scheduler_round-empty, scheduler_round-cons}
use distributed_ml_training.Manager.Monitor.{
  touches, fail_job, fail_jobs, update_gauges, monitor_round, offline_nodes,
}
use distributed_ml_training.Manager.Events.{
  Event, register, heartbeat, listen, poll, report, logs, submit, schedule, monitor, read_nodes,
  restart, Config, step, run,
}

gauges-send_all :
    (ids : ℕ → String) (job : JobDict) (port : ℕ) (master : String) (rank : ℕ) (ns : List Node)
    (m : Manager)
    → (send_all ids job port master rank ns m).gauges ≡ m.gauges
unfolding send_all
gauges-send_all ids job port master rank [] m = refl
gauges-send_all ids job port master rank (n ∷ ns) m =
    let c = launch_job (ids rank) (payload job port master rank) in
    gauges-send_all ids job port master (suc rank) ns (send_command n.node_id c m)
    ∙ (unfold send_command in ground arith)

gauges-stream_logs : (es : List LogMessage) (m : Manager) → (stream_logs es m).gauges ≡ m.gauges
unfolding stream_logs write_log
gauges-stream_logs [] m = refl
gauges-stream_logs (e ∷ es) m = gauges-stream_logs es _

gauges-fail_job : (now : ℕ) (j : Job) (m : Manager) → (fail_job now j m).gauges ≡ m.gauges
unfolding fail_job write_log
gauges-fail_job now j m = ground arith

gauges-fail_jobs :
    (now : ℕ) (offline : List String) (js : List Job) (m : Manager)
    → (fail_jobs now offline js m).gauges ≡ m.gauges
unfolding fail_jobs
gauges-fail_jobs now offline [] m = refl
gauges-fail_jobs now offline (j ∷ js) m = elim (Bool-cases (touches offline j)) [
  | inl e ↦
      rw (e, fail_jobs)
        (gauges-fail_jobs now offline js (fail_job now j m) ∙ gauges-fail_job now j m)
  | inr e ↦ rw (e, fail_jobs) (gauges-fail_jobs now offline js m)
]

job_latency-monitor_round :
    (now timeout : ℕ) (m : Manager) → (monitor_round now timeout m).job_latency ≡ m.job_latency
unfolding monitor_round update_gauges set_node_counts
job_latency-monitor_round now timeout m = go (offline_nodes now timeout m.registry)
  where
    go :
        (l : List String)
        → (elim l as (λ x. Manager) [
          | [] ↦ m
          | o ∷ os ↦ fail_jobs now (o ∷ os) (get_jobs (some JobState.running) m.registry) m
        ]).job_latency
          ≡ m.job_latency
    go [] = refl
    go (o ∷ os) =
        ap (λ (g : Gauges). g.job_latency)
          (gauges-fail_jobs now (o ∷ os) (get_jobs (some JobState.running) m.registry) m)

job_latency-place :
    (ids : ℕ → String) (now port : ℕ) (d : JobDict) (ns : List Node) (m : Manager)
    → (place ids now port d ns m).0.job_latency ≡ m.job_latency
unfolding place dispatch_allocated_job start_job log_allocation write_log inc_jobs_running
    dec_jobs_queued
job_latency-place ids now port d [] m = refl
job_latency-place ids now port d (n ∷ ns) m =
    ap (λ (g : Gauges). g.job_latency)
      (gauges-send_all ids d port n.ip_address 0 (n ∷ ns) (
        start_job now d (n ∷ ns) (
          log_allocation now d (n ∷ ns)
            (record m { jobs = record m.jobs { registry = reserve (n ∷ ns) m.registry } }))))

job_latency-report_job_status :
    (now : ℕ) (q : JobStatusRequest) (m : Manager)
    → (report_job_status now q m).job_latency ≡ m.job_latency
unfolding report_job_status report_failure report_completion observe_completion write_log
    inc_job_retries dec_jobs_running dict_of_row
job_latency-report_job_status now q m = ground arith

module _ (fl : Floats) (alloc : NodeAllocator fl) where
  job_latency-scheduler_round :
      (ids : ℕ → String) (now port : ℕ) (m : Manager)
      → (scheduler_round fl alloc ids now port m).0.job_latency ≡ m.job_latency
  job_latency-scheduler_round ids now port m = go m.queue refl
    where
      go :
          (q : List JobDict)
          → m.queue ≡ q
          → (scheduler_round fl alloc ids now port m).0.job_latency ≡ m.job_latency
      go [] e = rw (scheduler_round-empty fl alloc ids now port m e) refl
      go (d ∷ rest) e =
          rw (scheduler_round-cons fl alloc ids now port m d rest e)
            (job_latency-place ids now port d _ _)

module _ (fl : Floats) (cfg : Config fl) where
  job_latency-step :
      (now : ℕ) (e : Event) (m : Manager)
      → m.job_latency ≡ []
      → (step fl cfg now e m).job_latency ≡ []
  unfolding step register_node_rpc send_heartbeat open_stream next_command submit_job_rpc write_log
      inc_jobs_queued
  job_latency-step now (register id secret q) m h = h
  job_latency-step now (heartbeat q) m h = h
  job_latency-step now (listen id) m h = ground arith
  job_latency-step now (poll id) m h = ground arith
  job_latency-step now (report q) m h = job_latency-report_job_status now q m ∙ h
  job_latency-step now (logs es) m h =
      ap (λ (g : Gauges). g.job_latency) (gauges-stream_logs es m) ∙ h
  job_latency-step now (submit id q) m h = ground arith
  job_latency-step now (schedule ids) m h =
      job_latency-scheduler_round fl cfg.alloc ids now cfg.master_port m ∙ h
  job_latency-step now monitor m h = job_latency-monitor_round now cfg.monitor_timeout m ∙ h
  job_latency-step now read_nodes m h = h
  job_latency-step now restart m h = refl

  run_from-job_latency :
      (es : List (ℕ × Event)) (m : Manager)
      → m.job_latency ≡ []
      → (run fl cfg es m).job_latency ≡ []
  unfolding run
  run_from-job_latency [] m h = h
  run_from-job_latency ((now, e) ∷ es) m h =
      run_from-job_latency es (step fl cfg now e m) (job_latency-step now e m h)

  -- Whatever steps the manager does from an empty database, the latency of a job is never observed.
  pub job_latency-run : (es : List (ℕ × Event)) → (run fl cfg es new_manager).job_latency ≡ []
  job_latency-run es = run_from-job_latency es new_manager refl
