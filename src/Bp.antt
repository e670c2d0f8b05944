-- ===== src/Bp.antt =====
-- src/bp: the Bundle Protocol agent.
pub mod Bundle
pub mod Container
pub mod Crc
pub mod Fragment
pub mod Reassemble
pub mod Agent
pub mod Cla
pub mod Nmp
mod Examples
