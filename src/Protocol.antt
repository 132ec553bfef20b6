-- ===== src/Protocol.antt =====
-- src/protocol.rs: the framed stream from the server to the client. `Encode` writes packets, `Read`
-- reads them, `Ctl` has the control messages; the proofs are in the other children.
pub mod Types
pub mod Encode
pub mod Read
pub mod Framing
pub mod RoundTrip
pub mod Ctl
pub mod Progress
