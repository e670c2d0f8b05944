-- ===== src/Udpcl/RoundTrip.antt =====
-- A transfer that `_send_transfer` of src/udpcl/agent.py cuts, and `_recv_datagram` puts together again.
pub mod Message
pub mod Pieces
pub mod Whole
