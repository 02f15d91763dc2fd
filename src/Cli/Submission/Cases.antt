-- ===== src/Cli/Submission/Cases.antt =====
-- dmlf/cli.py: a submission from the command line succeeds, or leaves the jobs alone.
use distributed_ml_training.Base.{
  ℕ, ◌≡◌, ◌≢◌, refl, ◌∙◌, ◌⊎◌, ◌↔◌, sym, subst, inl, inr, String, some, Bool, true, false, any,
  Bool-cases,
}
use distributed_ml_training.Text.{strip}
use distributed_ml_training.Registry.Jobs.{row_of_dict, has_job_id, insert_job, get_job}
use distributed_ml_training.Queue.{submit_job}
use distributed_ml_training.Cli.Pipeline.{submitted_row}
use distributed_ml_training.Queue.Order.{sorted-Enqueued, Enqueued, as_pending}
use distributed_ml_training.Registry.Schema.{Registry}
use distributed_ml_training.Auth.Client.{add_auth}
use distributed_ml_training.Auth.Checks.{CarriesToken, authenticate_iff, removeprefix-append}
use distributed_ml_training.Auth.Server.{
  Verdict, proceed, abort, authenticate, needs_node, meta_get,
}
use distributed_ml_training.Settings.{JobDefaults}
use distributed_ml_training.Manager.State.{Manager, write_log}
use distributed_ml_training.Manager.Rpcs.{JobSubmitRequest, job_data, submit_job_rpc}
use distributed_ml_training.Cli.{JobFile, build_request, is_valid_request, submit_call}
use distributed_ml_training.Cli.Submission.{
  Printed, success, connection_error, traceback, print_reply, serve_submit, submit_job_file,
}

-- A submission carries its token and needs no node.
submit_iff :
    (token call_token : String) (r : Registry)
    → (authenticate token r (submit_call call_token) ≡ proceed) ↔ (strip call_token ≡ token)
unfolding submit_call add_auth needs_node meta_get
submit_iff token call_token r =
    let call = submit_call call_token in
    let sent : CarriesToken token call ≡ (strip call_token ≡ token) = rw removeprefix-append refl in
    (
      λ h. subst (λ (X : Type 0). X) sent ((authenticate_iff token r call).0 h).0,
      λ e. (authenticate_iff token r call).1 (subst (λ (X : Type 0). X) (sym sent) e, inl refl),
    )

-- The handler does what it can with a new identifier, and only with that.
submit_job_rpc-fresh :
    (now : ℕ) (id : String) (q : JobSubmitRequest) (m : Manager)
    → any (has_job_id id) m.registry.jobs ≡ false
    → ((submit_job_rpc now id q m).1 ≡ true)
      × Enqueued m.queue (as_pending (job_data id q)) (submit_job_rpc now id q m).0.queue
unfolding submit_job_rpc submit_job insert_job job_data write_log
submit_job_rpc-fresh now id q m fresh = (
  rw (fresh, submit_job_rpc, submit_job, insert_job) refl,
  rw (fresh, submit_job_rpc, submit_job, insert_job)
      (sorted-Enqueued m.queue (as_pending (job_data id q))),
)

submit_job_rpc-taken :
    (now : ℕ) (id : String) (q : JobSubmitRequest) (m : Manager)
    → any (has_job_id id) m.registry.jobs ≡ true
    → ((submit_job_rpc now id q m).1 ≡ false) × ((submit_job_rpc now id q m).0.jobs ≡ m.jobs)
unfolding submit_job_rpc submit_job insert_job job_data write_log
submit_job_rpc-taken now id q m taken = (
  rw (taken, submit_job_rpc, submit_job, insert_job) refl,
  rw (taken, submit_job_rpc, submit_job, insert_job) refl,
)

proceed-ne-abort : (message : String) → proceed ≢ abort message
proceed-ne-abort message e = cc

module _ (token raised cli_token : String) (defaults : JobDefaults) (now : ℕ) (id : String)
    (f : JobFile) (m : Manager) where
  abbrev pub submission : Manager × Printed
  submission = submit_job_file token raised cli_token defaults now id f m

  -- The token is the manager's, the identifier is new, the numbers are int32, and the job is stored and queued.
  pub record IsAccepted : Type 0 where
    pub valid : is_valid_request (build_request defaults f) ≡ true
    pub printed : submission.1 ≡ success id "Job added to queue."
    pub same_token : strip cli_token ≡ token
    pub fresh : any (has_job_id id) m.registry.jobs ≡ false
    pub stored :
        get_job id submission.0.registry
        ≡ some (row_of_dict now (as_pending (job_data id (build_request defaults f))))
    pub queued :
        Enqueued m.queue (as_pending (job_data id (build_request defaults f))) submission.0.queue

  -- The token is another or the identifier is taken; the jobs stay, and the user reads of an error.
  pub record IsRefused : Type 0 where
    pub valid : is_valid_request (build_request defaults f) ≡ true
    pub details : String
    pub printed : submission.1 ≡ connection_error details
    pub reason : (strip cli_token ≢ token) ⊎ (any (has_job_id id) m.registry.jobs ≡ true)
    pub jobs_stay : submission.0.jobs ≡ m.jobs

  -- A number of the file or of the defaults is no int32: no call is made.
  pub record IsInvalid : Type 0 where
    pub invalid : is_valid_request (build_request defaults f) ≡ false
    pub printed : submission.1 ≡ traceback
    pub unchanged : submission.0 ≡ m

  decide :
      (v : Verdict) (taken : Bool)
      → authenticate token m.registry (submit_call cli_token) ≡ v
      → any (has_job_id id) m.registry.jobs ≡ taken
      → is_valid_request (build_request defaults f) ≡ true
      → IsAccepted ⊎ IsRefused
  unfolding submit_job_file serve_submit print_reply
  decide proceed false e fresh ok =
      let q = build_request defaults f in
      let (added, queued) = submit_job_rpc-fresh now id q m fresh in
      inl (record {
        valid = ok;
        printed = rw (ok, submit_job_file, e, serve_submit, added) refl;
        same_token = (submit_iff token cli_token m.registry).0 e;
        fresh = fresh;
        stored = rw (ok, submit_job_file, e, serve_submit, added) (submitted_row now id q m fresh);
        queued = rw (ok, submit_job_file, e, serve_submit, added) queued;
      })
  decide proceed true e taken ok =
      let (failed, stay) = submit_job_rpc-taken now id (build_request defaults f) m taken in
      inr (record {
        valid = ok;
        details = raised;
        printed = rw (ok, submit_job_file, e, serve_submit, failed) refl;
        reason = inr taken;
        jobs_stay = rw (ok, submit_job_file, e, serve_submit, failed) stay;
      })
  decide (abort message) b e _ ok = inr (record {
    valid = ok;
    details = message;
    printed = rw (ok, submit_job_file, e, serve_submit) refl;
    reason = inl (λ same.
        proceed-ne-abort message (sym ((submit_iff token cli_token m.registry).1 same) ∙ e));
    jobs_stay = rw (ok, submit_job_file, e, serve_submit) refl;
  })

  -- A submission from the command line prints success, with the job stored and queued, where the
  -- numbers of its request are int32, its token is the manager's and the drawn identifier is new. It
  -- raises before the call where a number is no int32, and the manager stays as it was; otherwise it
  -- prints a connection error, and the manager's jobs stay.
  pub submit_job_file-cases : (IsAccepted ⊎ IsRefused) ⊎ IsInvalid
  unfolding submit_job_file
  submit_job_file-cases = elim (Bool-cases (is_valid_request (build_request defaults f))) [
    | inl ok ↦ inl (decide _ _ refl refl ok)
    | inr bad ↦ inr (record {
      invalid = bad;
      printed = rw (bad, submit_job_file) refl;
      unchanged = rw (bad, submit_job_file) refl;
    })
  ]
