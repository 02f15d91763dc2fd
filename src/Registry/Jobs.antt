-- ===== src/Registry/Jobs.antt =====
-- dmlf/manager/node_registry.py: the methods of `NodeRegistry` on jobs, and the job dictionaries
-- that the manager passes round in memory.
use distributed_ml_training.Base.{
  ℕ, ℤ, pos, String, Option, none, some, Bool, ◌||◌, List, [], ◌∷◌, ◌++◌, ◌==◌, keep, any,
  if◌then◌else◌,
}
use mathlib.Core.Option.{get_or}
use distributed_ml_training.Registry.JobState
use distributed_ml_training.Registry.Schema.{Job, Registry}

-- A job as a Python dict: the keys that every such dict has, and as options those that only some
-- have. `SubmitJob` builds one without them, `dict(row)` has all but `_submit_ts`.
pub record JobDict : Type 0 where
  pub job_id : String
  pub status : String
  pub script_path : String
  pub required_nodes : ℤ
  pub nproc_per_node : ℤ
  pub args : String
  pub max_retries : ℤ
  pub checkpoint_interval_minutes : ℤ
  pub backend : String
  pub job_name : Option String
  pub config_path : Option String
  pub assigned_nodes : Option (List String)
  pub priority : Option ℤ
  pub created_at : Option ℕ
  pub experiment_id : Option String
  pub retries : Option ℕ
  pub submit_ts : Option ℕ

-- dict(row). The columns that nothing reads from a dict (started_at, completed_at, exit_code) are
-- left out.
unfoldable pub dict_of_row : Job → JobDict
dict_of_row j = record {
  job_id = j.job_id;
  status = j.status;
  script_path = j.script_path;
  required_nodes = j.required_nodes;
  nproc_per_node = j.nproc_per_node;
  args = j.args;
  max_retries = j.max_retries;
  checkpoint_interval_minutes = j.checkpoint_interval_minutes;
  backend = j.backend;
  job_name = some j.job_name;
  config_path = some j.config_path;
  assigned_nodes = some j.assigned_nodes;
  priority = some j.priority;
  created_at = some j.created_at;
  experiment_id = some j.experiment_id;
  retries = some j.retries;
  submit_ts = none;
}

-- The row that `insert_job` writes, with the defaults of its `job_data.get(…)` calls.
unfoldable pub row_of_dict : ℕ → JobDict → Job
row_of_dict now d = record {
  job_id = d.job_id;
  job_name = get_or d.job_name "unnamed";
  status = d.status;
  script_path = d.script_path;
  config_path = get_or d.config_path "";
  required_nodes = d.required_nodes;
  assigned_nodes = get_or d.assigned_nodes [];
  priority = get_or d.priority (pos 0);
  created_at = now;
  started_at = none;
  completed_at = none;
  exit_code = none;
  experiment_id = get_or d.experiment_id "";
  nproc_per_node = d.nproc_per_node;
  args = d.args;
  retries = get_or d.retries 0;
  max_retries = d.max_retries;
  checkpoint_interval_minutes = d.checkpoint_interval_minutes;
  backend = d.backend;
}

abbrev pub has_job_id : String → Job → Bool
has_job_id id j = j.job_id == id

-- `none` is sqlite3.IntegrityError: `job_id` is the primary key.
unfoldable pub insert_job : ℕ → JobDict → Registry → Option Registry
unfolding row_of_dict
insert_job now d r =
    if any (has_job_id d.job_id) r.jobs
    then none
    else some (record r { jobs = r.jobs ++ row_of_dict now d ∷ [] })

-- UPDATE jobs SET … WHERE job_id = ?
unfoldable pub update_job : String → (Job → Job) → List Job → List Job
update_job id f [] = []
update_job id f (j ∷ js) = (if j.job_id == id then f j else j) ∷ update_job id f js

-- The assignments that `update_job_status` collects in `updates`: the time by the status, then the
-- optional columns that were given.
unfoldable pub set_status : ℕ → String → Option (List String) → Option ℤ → Job → Job
set_status now status nodes exit j =
    let base : Job = record j { status = status } in
    let timed : Job =
      if status == JobState.running
      then record base { started_at = some now }
      else if status == JobState.completed || status == JobState.failed
      then record base { completed_at = some now }
      else base in
    record timed {
      assigned_nodes = get_or nodes timed.assigned_nodes;
      exit_code = elim exit [ none ↦ timed.exit_code | some c ↦ some c ];
    }

unfoldable pub update_job_status :
    ℕ → String → String → Option (List String) → Option ℤ → Registry → Registry
unfolding update_job set_status
update_job_status now id status nodes exit r = record r {
  jobs = update_job id (set_status now status nodes exit) r.jobs;
}

unfoldable pub update_job_retries : String → String → ℕ → Registry → Registry
unfolding update_job
update_job_retries id new_status retries r = record r {
  jobs = update_job id (λ j. record j { status = new_status; retries = retries }) r.jobs;
}

unfoldable pub find_job : String → List Job → Option Job
find_job id [] = none
find_job id (j ∷ js) = if j.job_id == id then some j else find_job id js

unfoldable pub get_job : String → Registry → Option Job
unfolding find_job
get_job id r = find_job id r.jobs

abbrev pub has_status : String → Job → Bool
has_status s j = j.status == s

-- `if status:` takes None and the empty text for no filter.
unfoldable pub get_jobs : Option String → Registry → List Job
get_jobs none r = r.jobs
get_jobs (some s) r = if s == "" then r.jobs else keep (has_status s) r.jobs
