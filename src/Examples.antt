-- ===== src/Examples.antt =====
-- Runs of the model on concrete frames and nodes.
pub mod Data
pub mod Nodes
pub mod Codecs
pub mod Tables
pub mod Others
pub mod Rings
pub mod Configs
pub mod Traffic
pub mod Threads
pub mod Kernels
pub mod Lans
