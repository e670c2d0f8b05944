-- ===== src/Udpcl.antt =====
-- src/udpcl: the UDP convergence layer.
pub mod Value
pub mod Conversation
pub mod State
pub mod Queue
pub mod Starttls
pub mod Send
pub mod Pmtud
pub mod Receive
pub mod Control
pub mod Ledger
pub mod Numbers
pub mod Idle
pub mod Steps
pub mod RoundTrip
pub mod Encoding
mod Examples
