-- ===== src/Agent.antt =====
-- dmlf/agent/agent.py and dmlf/agent/launcher.py: the agent on a node.
--
-- The agent's threads are the heartbeat loop, the command loop and the thread that streams the
-- output of the job and reports its end. Each of their actions is a step on the state.
pub mod State
pub mod Hardware
pub mod Launcher
pub mod Backoff
pub mod Loop
pub mod Status
