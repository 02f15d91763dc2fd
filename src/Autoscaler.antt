-- ===== src/Autoscaler.antt =====
-- dmlf/autoscaler/policy.py: the rules of `Autoscaler._evaluate`.
--
-- The callback is outside: an evaluation returns the direction that it is called with. The gauges
-- of prometheus_client enter by their values.
pub mod Policy
pub mod Cooldown
pub mod Callback
