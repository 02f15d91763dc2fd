-- ===== src/Training.antt =====
-- dmlf/training and dmlf/distributed: the training process that torchrun starts on a node.
--
-- torch is a parameter (`Torch`): the model, the optimizer, the sampler and the random generators are
-- one world that its calls change. `Trainer` is `DDPTrainer` on it, with the directory of its
-- checkpoints; `Worlds`, `Ranks` and `Resume` have its laws. `Distributed` and `DdpModel` are the
-- set-up, `Network` is the model, and `Main` puts them together; `Launch` and `Restart` are about a process of torchrun.
pub mod Torch
pub mod Trainer
pub mod Worlds
pub mod Resume
pub mod Ranks
pub mod Distributed
pub mod Launch
pub mod DdpModel
pub mod Main
pub mod Restart
pub mod Network
