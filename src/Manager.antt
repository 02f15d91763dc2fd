-- ===== src/Manager.antt =====
-- dmlf/manager/cluster_manager.py: the cluster manager.
--
-- `State` is the servicer with the queue, the registry and the gauges that it changes; `Rpcs` has
-- its handlers, `Dispatch` the callback of the scheduler, `Pass` the scheduler's round of
-- dmlf/manager/schedulers, and `Monitor` the thread that watches for silent nodes.
-- `Events` makes each of them one step; `Steps` and `Interleave` have them one access at a time.
pub mod State
pub mod Dispatch
pub mod Rpcs
pub mod Pass
pub mod Monitor
pub mod Steps
pub mod Interleave
pub mod Events
pub mod Lifecycle
pub mod Refinement
