-- ===== src/Tcpcl/Packet.antt =====
-- src/tcpcl/contact.py, messages.py and extend.py: the contact header and the messages, as the
-- values that the session works with. Their octets are the work of Scapy, a parameter of the model.
use dtn_demo_agent.Common.{ℕ, Bool, Option, List, bit_and, ◌==◌, not}

-- contact.ContactV4.Flag
abbrev pub can_tls : ℕ
can_tls = 0x01

-- messages.TlvHead.Flag
abbrev pub critical : ℕ
critical = 0x01

-- messages.TransferSegment.Flag
abbrev pub seg_end : ℕ
seg_end = 0x1

abbrev pub seg_start : ℕ
seg_start = 0x2

-- messages.SessionTerm.Flag
abbrev pub term_reply : ℕ
term_reply = 0x01

-- messages.SessionTerm.Reason
abbrev pub term_unknown : ℕ
term_unknown = 0

abbrev pub term_idle_timeout : ℕ
term_idle_timeout = 1

abbrev pub term_contact_failure : ℕ
term_contact_failure = 4

-- messages.RejectMsg.Reason
abbrev pub reject_unknown : ℕ
reject_unknown = 1

abbrev pub reject_unexpected : ℕ
reject_unexpected = 3

-- An extension item: its flags and its typed payload, of extend.py.
pub data ExtItem : Type 0 where
  private_dummy : ℕ → ExtItem
  total_length : ℕ → ℕ → ExtItem

pub record SessionInit : Type 0 where
  pub keepalive : ℕ
  pub segment_mru : ℕ
  pub transfer_mru : ℕ
  pub nodeid_data : List ℕ
  pub ext_items : List ExtItem

pub record TransferSegment : Type 0 where
  pub flags : ℕ
  pub transfer_id : ℕ
  pub ext_items : List ExtItem
  pub content : List ℕ

-- A contact header has its magic, its version and, if it is of version 4 and whole, its flags.
pub data Pkt : Type 0 where
  contact : List ℕ → ℕ → Option ℕ → Pkt
  xfer_segment : TransferSegment → Pkt
  xfer_ack : ℕ → ℕ → ℕ → Pkt
  xfer_refuse : ℕ → ℕ → Pkt
  keepalive_msg : Pkt
  sess_term : ℕ → ℕ → Pkt
  reject_msg : ℕ → ℕ → Pkt
  sess_init : SessionInit → Pkt

-- The `bind_layers` of messages.py. A contact header has no message number.
abbrev pub msg_id : Pkt → ℕ
msg_id (contact m v f) = 0
msg_id (xfer_segment x) = 0x1
msg_id (xfer_ack f i l) = 0x2
msg_id (xfer_refuse r i) = 0x3
msg_id keepalive_msg = 0x4
msg_id (sess_term f r) = 0x5
msg_id (reject_msg i r) = 0x6
msg_id (sess_init x) = 0x7

-- `flags & flag`
abbrev pub has_flag : ℕ → ℕ → Bool
has_flag flags flag = not (bit_and flags flag == 0)

-- What Scapy makes of a buffer: a packet, `VerifyError`, or another exception.
pub data Decoded : Type 0 where
  packet : Pkt → Decoded
  partial : Decoded
  failed : Decoded

-- `bytes(pkt)`, and `msgcls(buf)` for `MessageHead` (true) or for the contact `Head` (false).
pub record Codec : Type 0 where
  pub encode : Pkt → List ℕ
  pub decode : Bool → List ℕ → Decoded
