-- ===== src/Lib.antt =====
-- The manager and the agents of the Distributed Machine Learning Framework.
--
-- A cluster manager keeps a registry of nodes and jobs in SQLite and a queue of the waiting jobs in
-- memory. Agents register, send heartbeats, listen for commands and report the end of their jobs by
-- gRPC. A scheduler thread pops jobs from the queue, asks the allocator for nodes and has the manager
-- dispatch; a monitor thread fails the jobs of silent nodes; an autoscaler asks for more or fewer
-- nodes. Which part of the program a file models:
--
--   Registry/      dmlf/manager/node_registry.py. Schema has the tables, Nodes and Jobs the methods of
--                  NodeRegistry, under their names, as functions on a database. Availability and Rows
--                  have the laws of the node reads and of the job rows.
--   Queue          dmlf/manager/queue.py, JobQueue with the registry that it shares; Queue/Order is
--                  about the order of service, Queue/Recovery about the queue of a restart. Sort has Python's `list.sort(reverse=True)`.
--   Allocator      dmlf/manager/allocator.py, NodeAllocator; Allocator/Memory is `_parse_memory`,
--                  Allocator/Best says which nodes are chosen.
--   Manager/       dmlf/manager/cluster_manager.py. State is the servicer with its command queues, log
--                  and gauges (dmlf/monitoring/prometheus.py); Rpcs has the handlers RegisterNode,
--                  SendHeartbeat, ListenForCommands, ReportJobStatus, StreamLogs and SubmitJob;
--                  Dispatch has dispatch_allocated_job; Pass is a round of the scheduler
--                  (dmlf/manager/schedulers/base.py and builtin.py), Pass/Older the same of the older
--                  dmlf/manager/scheduler.py; Monitor is a round of monitor_nodes. Events puts them together: a run is any sequence of
--                  steps, with the time of each.
--   Manager/Lifecycle, Manager/Refinement
--                  What the steps may do to the job rows and the queue, as a relation with few
--                  changes, and the steps against it; Refinement/Crash is about the rows after a round
--                  of the monitor, Refinement/Latency about the latency metric.
--   Manager/Steps, Manager/Interleave
--                  The threads of the manager one access at a time: Steps/Scheduling is a round of the
--                  scheduler with the dispatch, Steps/Reporting ReportJobStatus, Steps/Submitting
--                  SubmitJob, Steps/Monitoring a round of monitor_nodes; Interleave lets any number of
--                  them go on in any order. Lifecycle/Pool is what they may do to the rows and the
--                  waiting jobs, which are a bag there; Interleave/Waiting has the invariants,
--                  Interleave/Atomic the comparison with Events, Interleave/Drain the ends of the threads,
--                  Interleave/Races a lost update, by what the threads of Interleave/Retrying keep.
--   Auth           dmlf/communication/auth.py: the interceptors of both sides.
--   Autoscaler     dmlf/autoscaler/policy.py: an evaluation and the loop; Callback has its callbacks, with
--                  dmlf/autoscaler/default_callback.py, and the choice among them in serve.
--   Agent          dmlf/agent/agent.py and dmlf/agent/launcher.py: the agent's state and its delays;
--                  Agent/Loop is the loop of start over its streams,
--                  Agent/Launcher has the command line of torchrun and the messages of its output,
--                  Agent/Hardware the memory size of dmlf/agent/hardware.py, which Allocator/Format
--                  reads back.
--   Threads        start, stop and the loop of the threads of the scheduler and the autoscaler, as steps
--                  on a flag and a thread; Threads/Older has those of dmlf/manager/scheduler.py.
--   Cluster        the agents and the manager in one system: deliveries of commands, ends of processes
--                  with their reports, and heartbeats. Cluster/Output is the log thread of
--                  dmlf/agent/launcher.py, with the number of messages that gRPC asks it for.
--   Health         dmlf/manager/health.py: the routes and their answers; Health/Counts has the counts of
--                  /cluster.
--   Settings       dmlf/settings.py: the classes, and load_settings and get_settings on the global
--                  instance. Its values are the parameters of the manager and the autoscaler.
--   Cli            dmlf/cli.py: the request of submit_job; Cli/Submission has its call through the
--                  interceptors to the handler, and what it prints; Cli/Pipeline follows a job from its file
--                  through the manager to the command line on a node.
--   Training       the process that torchrun starts: train.py (Main), dmlf/distributed/init.py
--                  (Distributed), dmlf/training/ddp_model.py (DdpModel) and dmlf/training/trainer.py
--                  (Trainer), and the network of train.py (Network). Worlds, Ranks, Resume, Launch and Restart have their laws.
--   Monitoring     dmlf/monitoring/system.py: the reader of the output of nvidia-smi, and what goes
--                  into heartbeats and TensorBoard of it. NodeGauges has the gauges by node of
--                  dmlf/monitoring/prometheus.py and what the autoscaler reads of them.
--   Dashboard      dmlf/dashboard.py, and the job lines of metrics.py; Averages has its hardware lines.
--   Plugins        dmlf/manager/scheduler_factory.py, and load_callback of the autoscaler.
--   Base, Text, Floats
--                  Shared: lists, signed integers, dicts, Python's text methods with `str` and `int` of
--                  numbers, and floats.
--   Examples       Small inputs, and what the library says about them.
--
-- How the code is read:
--
--   - A method is a function from a state to a state; a raised exception that a caller meets is
--     `none` or `false`. What is printed is left out.
--   - In Manager/Events a handler, a round of a thread and a restart are atomic steps. Locks make only
--     the single accesses of the registry and of the queue atomic, and in Manager/Interleave the
--     threads that change jobs interleave between them. A thread there keeps its local variables (a
--     popped job, rows that it has read) while others go on. RegisterNode, SendHeartbeat,
--     ListenForCommands and StreamLogs, which neither read nor write jobs, stay atomic, and so does a
--     read of the nodes.
--   - Times are natural numbers of microseconds, and the clock may go either way between steps. Random
--     identifiers are arguments of the steps, and need not be new.
--   - The float operations of the allocator and the autoscaler are a parameter (Floats), and what
--     theorems need of them are hypotheses: the two laws of an order (IsOrdered) and those of zeros
--     (HasZero).
--   - torch, its layers and its process groups (Torch, Layers, ProcessGroups), the documents of YAML with the conversions
--     of pydantic (Documents), and importlib (Imports) are parameters. What is documented of them and
--     needed is a hypothesis: IsJoinable, IsTorchrun and IsTorchNn in Training, FloatTexts in Monitoring;
--     Torch itself says that a loader has as many batches as its length. A resumed training starts from
--     the states that are loaded; that it repeats an uninterrupted one is not claimed, as the dropout of
--     train.py draws random numbers whose generator no checkpoint has. The data loader of train.py comes
--     from dmlf/data/distributed_loader.py, which the repository does not have: `main` is modelled with
--     and without it.
--   - The number of epochs is a natural number; a negative `--epochs` is not modelled.
--   - The digits of a number are written with fuel, one more than the number, and a lemma says that
--     this is enough. All other recursion is on lists, texts or numbers.
--   - Counters and the int32 fields of the messages are unbounded: the program does no arithmetic that
--     wraps. That a message refuses a number out of range is modelled where a user's file gives it, in Cli.
--
-- Not modelled: gRPC, protobuf and SQLite themselves, the start-up of the processes, processes of the
-- operating system, psutil, argparse and rich, the seeds and data sets of train.py,
-- and the test scripts.
pub mod Base
pub mod Text
pub mod Sort
pub mod Floats
pub mod Registry
pub mod Queue
pub mod Allocator
pub mod Manager
pub mod Auth
pub mod Autoscaler
pub mod Agent
pub mod Health
pub mod Settings
pub mod Cli
pub mod Cluster
pub mod Threads
pub mod Training
pub mod Dashboard
pub mod Plugins
pub mod Monitoring
pub mod Examples
