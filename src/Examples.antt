-- ===== src/Examples.antt =====
-- Small inputs, and the results of the library on them.
mod Averages
mod Samples
mod Runs
mod Rounds
mod Parts
mod Edges
mod Training
mod Hosts
mod Clusters
mod Interleavings
mod Networks
