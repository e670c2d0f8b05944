-- ===== src/Tcpcl.antt =====
-- The TCP convergence layer (src/tcpcl).
pub mod Sdnv
pub mod Packet
pub mod Session
