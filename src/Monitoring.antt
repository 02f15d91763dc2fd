-- ===== src/Monitoring.antt =====
-- dmlf/monitoring/system.py: what a host measures of itself.
--
-- `Gpu` is the reader of the output of nvidia-smi and what the heartbeat and TensorBoard take of it;
-- `Report` is about the text that nvidia-smi prints. `NodeGauges` has the gauges by node of
-- dmlf/monitoring/prometheus.py.
pub mod NodeGauges
pub mod Gpu
pub mod Report
