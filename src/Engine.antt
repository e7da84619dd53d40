-- ===== src/Engine.antt =====
-- internal/engine: the Ethernet header, sequence numbers, the PRP trailer and the HSR tag.
pub mod Ether
pub mod Sequence
pub mod Rct
pub mod Hsr
