-- ===== src/Cli/Pipeline.antt =====
-- dmlf/cli.py, dmlf/manager/cluster_manager.py and dmlf/agent/launcher.py: a job's way from its file
-- to the command line of torchrun on a node.
use mathlib.Core.Option.{get_or}
use mathlib.Core.List.{append-nil}
use Prim.Native.String.{◌++◌ as str_append}
use distributed_ml_training.Base.{
  ℕ, pos, ◌≡◌, refl, sym, ap, ◌∙◌, String, some, false, List, [], ◌∷◌, ◌++◌, any, All, ◌==◌, eq_iff,
  eq_refl, if◌then◌else◌, inl, inr, Bool-cases,
}
use distributed_ml_training.Text.Numbers.{show_int}
use distributed_ml_training.Text.Words.{IsWord, join, split_words, split_words-join}
use distributed_ml_training.Registry.Schema.{Job}
use distributed_ml_training.Registry.Jobs.{
  dict_of_row, row_of_dict, has_job_id, insert_job, get_job,
}
use distributed_ml_training.Registry.Rows.{absent_key, find_job-snoc}
use distributed_ml_training.Queue.{submit_job}
use distributed_ml_training.Queue.Order.{as_pending}
use distributed_ml_training.Manager.State.{Manager, write_log}
use distributed_ml_training.Manager.Dispatch.{payload}
use distributed_ml_training.Manager.Rpcs.{JobSubmitRequest, job_data, submit_job_rpc}
use distributed_ml_training.Agent.Launcher.{launch_command}
use distributed_ml_training.Settings.{JobDefaults}
use distributed_ml_training.Cli.{JobFile, build_request}

-- The command line that a job file asks for: the defaults of its missing keys, and its arguments
-- word by word.
abbrev pub asked_command :
    JobFile → (words : List String) → (port : ℕ) (master : String) (rank : ℕ) → List String
asked_command f words port master rank =
    ("torchrun"
      ∷ str_append "--nnodes=" (show_int (get_or f.nodes (pos 1)))
      ∷ str_append "--node_rank=" (show_int (pos rank))
      ∷ str_append "--master_addr=" master
      ∷ str_append "--master_port=" (show_int (pos port))
      ∷ str_append "--nproc_per_node=" (show_int (get_or f.nproc_per_node (pos 1)))
      ∷ get_or f.script_path "train.py"
      ∷ [])
    ++ words

-- Without arguments nothing is appended, as the words of the empty text are none.
append_args :
    (base : List String) (args : String)
    → (if args == "" then base else base ++ split_words args) ≡ base ++ split_words args
unfolding split_words
append_args base args = elim (Bool-cases (args == "")) [
  | inl e ↦ rw ((eq_iff args "").0 e) (sym (append-nil base))
  | inr e ↦ rw e refl
]

pub submitted_row :
    (now : ℕ) (id : String) (q : JobSubmitRequest) (m : Manager)
    → any (has_job_id id) m.registry.jobs ≡ false
    → get_job id (submit_job_rpc now id q m).0.registry
      ≡ some (row_of_dict now (as_pending (job_data id q)))
unfolding submit_job_rpc submit_job insert_job get_job job_data row_of_dict write_log
submitted_row now id q m fresh =
    rw (fresh, submit_job_rpc, submit_job, insert_job)
      (find_job-snoc id m.registry.jobs (row_of_dict now (as_pending (job_data id q)))
        ∙ rw ((absent_key id m.registry.jobs fresh).1, eq_refl) refl)

-- A job that was submitted from a file under a new identifier has a row, and whether it is
-- dispatched from the submitted dict or, after a retry or a restart, from its row, the node at each
-- rank runs the command line that the file asks for, for arguments that are words joined by spaces.
pub submitted_command :
    (defaults : JobDefaults) (f : JobFile) (words : List String) (now port rank : ℕ)
    (id master : String) (m : Manager)
    → f.args ≡ some (join " " words)
    → All IsWord words
    → any (has_job_id id) m.registry.jobs ≡ false
    → (launch_command (payload (job_data id (build_request defaults f)) port master rank)
        ≡ asked_command f words port master rank)
      × (row : Job) × (get_job id (submit_job_rpc now id (build_request defaults f) m).0.registry
          ≡ some row)
      × (launch_command (payload (dict_of_row row) port master rank)
          ≡ asked_command f words port master rank)
unfolding launch_command payload job_data build_request dict_of_row row_of_dict
submitted_command defaults f words now port rank id master m given plain fresh =
    let base = asked_command f [] port master rank in
    let args : get_or f.args "" ≡ join " " words = rw given refl in
    let command =
      append_args base (get_or f.args "")
      ∙ ap (λ (a : String). base ++ split_words a) args
      ∙ ap (◌++◌ base) (split_words-join words plain) in
    (
      command,
      row_of_dict now (as_pending (job_data id (build_request defaults f))),
      submitted_row now id (build_request defaults f) m fresh,
      command,
    )
