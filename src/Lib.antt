-- ===== src/Lib.antt =====
-- The DTN demo agent: a TCP convergence layer (tcpcl), a UDP convergence layer, and a Bundle
-- Protocol agent that uses them over D-Bus. This library models the program part by part, as
-- functions on explicit states, and proves what the parts promise.
--
-- Tcpcl.Sdnv: src/tcpcl/sdnv.py, the self-delimiting numbers. `int2sdnv` and `sdnv2int` are loops.
-- The fuel of the first is the value, which each round divides by 128; that of the second is the
-- data.
--
-- Tcpcl.Packet: the packets of src/tcpcl/messages.py, contact.py and extend.py as values. Their
-- octets are the work of Scapy, which is the parameter `Codec` of the session.
--
-- Tcpcl.Session: src/tcpcl/session.py. One object of `ContactHandler`, with what it inherits from
-- `Messenger` and `Connection`, is one record `Session` (State), and each method is a function of
-- the same name on it that may raise (Common.Exec). A GLib source is the fact that it is there;
-- what the outside sees is a list of events. Connection: sockets, watches, timers, closing.
-- Sending: the `send_*` methods, start and termination. Transmit: the queue (`_process_queue`) and
-- acknowledgements. Receive: segments, SESS_TERM, the bundles to deliver. Negotiate:
-- `merge_contact_params`, `merge_session_params` and `match_id`. Dispatch: `recv_message`,
-- `recv_raw`, and the two buffers on the way to the socket. The fuel of `recv_loop` is the length
-- of the buffer, since each packet takes octets of it; that of `flush_tx` is the number of octets
-- that wait. Clock, certificate, handshake, socket and the floating-point segment size control are
-- answers of the outside (`Env`).
--
-- The proofs: Transfer says what a run of segments is; Segment, Sender and Run follow one bundle
-- through `_process_queue`, Receiver and Delivery through `recv_xfer_data`; Streams is about the
-- two buffers, Queue about the places of a transfer over every step that GLib, D-Bus or the peer
-- cause (Queue.Steps), Policy about TLS and authentication, Faults about messages and bundles that
-- are not expected.
--
-- Bp.Bundle: the fields of src/bp/encoding/blocks.py and bundle.py, and how they are filled. The
-- sizes of encoded items are the parameter `Cbor`. Bp.Container: `BundleContainer` of
-- src/bp/util.py. An entry of its index is the number of a block. The fuel of `get_block_num` is
-- one more than the largest key (Numbers).
--
-- Bp.Crc: the CRC life cycle of blocks.py and bundle.py, over the CRC functions as a parameter.
-- Bp.Agent: `Timestamper` and `Agent.recv_bundle` of src/bp/agent.py. The applications are their
-- steps in the chain and a state that these share. Once is about what happens once. Bp.Agent.Send:
-- routes and `send_bundle`, whose state is a record `Job`; what was sent is a list. Regular
-- expressions and the senders of the layers are parameters. Outcomes is about what a call sends,
-- Routes, Stages and Peers about which way it goes. Bp.Agent.Attach: `cl_attach`,
-- `_bus_name_changed` and `ping`; Bound is about when a layer is bound.
--
-- Bp.Fragment, Bp.Reassemble: `_create` and `_reassemble` of src/bp/app/fragment.py. What they give
-- to `glib.idle_add` is a list of containers. The fuel of `create_loop` is the length of the
-- payload, since each fragment has an octet or more. The intervals of the package portion are the
-- parameter `Portion`, of which Common.Portion.Spans is an instance. Fills and Cut are about
-- creation, Synthesis, Agrees and Whole about reassembly.
--
-- Udpcl: src/udpcl/agent.py, whose object `Agent` is the record `Agent` (State). Sockets,
-- connections and timers are numbers; callbacks that GLib holds are counted or listed. Value: the
-- CBOR items, whose octets are the parameter `Cbor2`, with the laws `IsCbor` and `IsSized`;
-- Encoding is an instance. Conversation: `Conversation` and `find_in`. Queue: `_add_rx_item`,
-- `_add_tx_item` and the calls of the user. Starttls: sockets and `_starttls`. Send:
-- `_send_transfer` and `_process_tx_queue`; the fuel of its loop is the length of the item, and
-- where the MTU leaves no room the loop does not end: it raises `stuck`, and no step of Idle and
-- Steps goes on after that. Pmtud: the probes. Receive: `_recv_ext_map`, `_recv_datagram`,
-- `_sock_recvfrom`; the fuel is the length of the datagram. Control: `listen`, `listen_stop`,
-- `_poll`. The answers of name resolution, `bind`, `sendto` and handshakes are the record `Env`.
-- The proofs: Matching is about `find_in`, Numbers, Ledger, Sound and Steps about numbers and
-- queues over every step, Idle about GLib's idle callbacks, Loop, Bounds, Order and Send.Ends about
-- sending, Tables, Assembly and RoundTrip about transfers, Policy, Downgrade and Ends about
-- datagrams.
--
-- Bp.Cla: src/bp/cla.py, the adaptors between the agent and the convergence layers. The dicts of
-- `TcpclAdaptor` are a record, a connection is its object path, and what is asked of D-Bus is a
-- list of calls. The signals of a change of state that are connected are listed. Acts is what may
-- come before a session with a node, Waiting is about the bundles that wait for it, Resent about
-- what a second session sends.
--
-- Bp.Nmp: src/bp/app/nmp.py, the neighbor messages as steps of the chains; First and Routes are
-- about the routes of neighbors, Unreachable about one that has none. What cbor2 and ipaddress read
-- is a parameter.
--
-- Not modelled: XFER_REFUSE past the exception that it ends in, the D-Bus registration and getters,
-- forwarding in the Bundle Protocol agent and its administrative application, the sending of HELLO,
-- BPSec, the Scapy field classes, and the scripts of the container.
pub mod Common
pub mod Tcpcl
pub mod Bp
pub mod Udpcl
