-- ===== src/Dashboard.antt =====
-- dmlf/dashboard.py: what `ClusterDashboard` shows; metrics.py: the job lines of `calc_metrics`.
--
-- Colours and layout are rich's, except the colour of a state. Numbers are shown by their values in
-- millionths, not by their text. Of metrics with the same time, the earliest row counts.
pub mod Newest
pub mod Averages
use distributed_ml_training.Base.{
  ℕ, ℤ, pos, sub_ℕ, ◌-◌, String, Option, none, some, Bool, true, false, ◌==◌, ltb, List, [], ◌∷◌,
  map, keep, take, drop, length, if◌then◌else◌, Dict, lookup,
}
use distributed_ml_training.Text.{strip}
use distributed_ml_training.Text.Words.{join}
use distributed_ml_training.Sort.{sort_desc}
use distributed_ml_training.Registry.Schema.{Node, Sample, Metric, Job, Registry}
use Prim.Native.String.{◌++◌ as str_append}

-- The newest of the rows, `best` included.
unfoldable pub newest_from : Metric → List Metric → Metric
newest_from best [] = best
newest_from best (m ∷ ms) = newest_from (if ltb best.timestamp m.timestamp then m else best) ms

-- The row of a node in the joined subquery, if it has one.
unfoldable pub latest_metric : String → List Metric → Option Metric
unfolding newest_from
latest_metric id metrics = elim (keep (λ m. m.node_id == id) metrics) [
  | [] ↦ none
  | m ∷ ms ↦ some (newest_from m ms)
]

unfoldable pub state_color : String → String
state_color status =
    if status == "IDLE" then "green" else if status == "TRAINING" then "yellow" else "red"

-- A row of the table of nodes.
pub record NodeRow : Type 0 where
  pub node_id : String
  pub ip_address : String
  pub color : String
  pub status : String
  pub cpu_percent : ℤ
  pub ram_percent : ℤ
  pub gpu_utilization : ℤ
  pub heartbeat_latency_ms : ℤ

-- row[column] or 0
abbrev pub value_or_zero : (Metric → ℤ) → Option Metric → ℤ
value_or_zero column none = pos 0
value_or_zero column (some m) = column m

unfoldable pub node_row : List Metric → Node → NodeRow
unfolding latest_metric state_color
node_row metrics n =
    let latest = latest_metric n.node_id metrics in
    record {
      node_id = n.node_id;
      ip_address = n.ip_address;
      color = state_color n.status;
      status = n.status;
      cpu_percent = value_or_zero (λ m. m.sample.cpu_percent) latest;
      ram_percent = value_or_zero (λ m. m.sample.ram_percent) latest;
      gpu_utilization = value_or_zero (λ m. m.sample.gpu_utilization) latest;
      heartbeat_latency_ms = value_or_zero (λ m. m.heartbeat_latency_ms) latest;
    }

-- A table: its rows, or the one row that says that the database cannot be read.
pub data Table {ℓ} (Row : Type ℓ) : Type ℓ where
  rows : List Row → Table Row
  error_reading_db : Table Row

unfoldable pub generate_node_table : Option Registry → Table NodeRow
unfolding node_row
generate_node_table none = error_reading_db
generate_node_table (some r) = rows (map (node_row r.metrics) r.nodes)

unfoldable pub status_color : String → String
status_color status =
    if status == "PENDING"
    then "yellow"
    else if status == "RUNNING"
    then "cyan"
    else if status == "COMPLETED"
    then "green"
    else "red"

pub record JobRow : Type 0 where
  pub job_id : String
  pub required_nodes : ℤ
  pub color : String
  pub status : String

unfoldable pub job_row : Job → JobRow
unfolding status_color
job_row j = record {
  job_id = j.job_id;
  required_nodes = j.required_nodes;
  color = status_color j.status;
  status = j.status;
}

abbrev pub older : Job → Job → Bool
older a b = ltb a.created_at b.created_at

-- ORDER BY created_at DESC LIMIT 5
unfoldable pub newest_jobs : List Job → List Job
unfolding sort_desc
newest_jobs jobs = take 5 (sort_desc older jobs)

unfoldable pub generate_jobs_table : Option Registry → Table JobRow
unfolding newest_jobs job_row
generate_jobs_table none = error_reading_db
generate_jobs_table (some r) = rows (map job_row (newest_jobs r.jobs))

-- data.get(key, "")
abbrev pub get_or_empty : String → Dict String → String
get_or_empty key entry = elim (lookup key entry) [ none ↦ "" | some text ↦ text ]

-- A line of the log: `parse` gives the texts of the values of its JSON object, if it is one.
unfoldable pub log_line : (parse : String → Option (Dict String)) → String → String
unfolding lookup strip
log_line parse line = elim (parse line) [
  | none ↦ strip line
  | some entry ↦ str_append "[" (
      str_append (get_or_empty "timestamp" entry) (
        str_append "] [" (
          str_append (get_or_empty "node" entry) (str_append "] " (get_or_empty "message" entry)))))
]

-- The last ten lines of the log, of a file that may not be there or not be readable.
unfoldable pub generate_logs_panel :
    (parse : String → Option (Dict String)) → Option (List String) → String
unfolding log_line join
generate_logs_panel parse none = "No logs yet."
generate_logs_panel parse (some lines) =
    let shown = map (log_line parse) (drop (length lines - 10) lines) in
    elim shown [ [] ↦ "No logs yet." | line ∷ rest ↦ join "\n" (line ∷ rest) ]

-- A line of `calc_metrics` on a completed job.
pub record JobTimes : Type 0 where
  pub job_id : String
  pub wait_time : ℤ
  pub run_time : ℤ

-- The times of a row. A missing time is None, whose difference raises TypeError.
unfoldable pub job_times : Job → Option JobTimes
job_times j = elim j.started_at [
  | none ↦ none
  | some started ↦ elim j.completed_at [
    | none ↦ none
    | some ended ↦ some (record {
      job_id = j.job_id;
      wait_time = sub_ℕ started j.created_at;
      run_time = sub_ℕ ended started;
    })
  ]
]

-- The lines up to the first TypeError; `false` if there was one.
unfoldable pub times_of_rows : List Job → List JobTimes × Bool
unfolding job_times
times_of_rows [] = ([], true)
times_of_rows (j ∷ js) =
    let (lines, done) = times_of_rows js in
    elim (job_times j) [ none ↦ ([], false) | some line ↦ (line ∷ lines, done) ]

unfoldable pub calc_job_metrics : Registry → List JobTimes × Bool
unfolding times_of_rows
calc_job_metrics r = times_of_rows (keep (λ j. j.status == "COMPLETED") r.jobs)
