-- ===== src/Tcpcl/Session.antt =====
-- src/tcpcl/session.py: `Connection`, `Messenger` and `ContactHandler`, one module for each group of
-- methods. `ContactHandler` is the class of every object, so each method is the one that it runs.
pub mod State
pub mod Connection
pub mod Sending
pub mod Transmit
pub mod Receive
pub mod Negotiate
pub mod Dispatch
pub mod Transfer
pub mod Segment
pub mod Sender
pub mod Run
pub mod Receiver
pub mod Delivery
pub mod Streams
pub mod Policy
pub mod Faults
pub mod Queue
mod Examples
