-- ===== src/Prp.antt =====
-- internal/prp: the RedBox node, its roles, its frame handlers and its timers.
pub mod Role
pub mod Node
pub mod Effects
pub mod Multicast
pub mod Lan
pub mod Ring
pub mod Monitor
pub mod Dispatch
pub mod Threads
pub mod Ports
