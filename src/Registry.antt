-- ===== src/Registry.antt =====
-- dmlf/manager/node_registry.py: the SQLite store behind the cluster manager.
--
-- `Schema` has the tables, `Nodes` and `Jobs` have the methods. A table is the list of its rows in
-- the order of insertion, which is the order in which a scan of the table returns them. No method
-- deletes a row. Each method opens its own connection and commits, so each is one step here.
--
-- Instants are whole microseconds (the REAL columns hold seconds), and the current time that a
-- method reads from `time.time()` is its argument `now`.
pub mod NodeState
pub mod JobState
pub mod Schema
pub mod Nodes
pub mod Jobs
pub mod Availability
pub mod Rows
