-- ===== src/Link.antt =====
-- The parts of the link service, src/Services/Link and src/LoLaLinkInfo.h.
pub mod RingBuffer
pub mod Latency
pub mod Power
pub mod Hopper
pub mod Transaction
pub mod ClockSync
pub mod Info
pub mod Service
pub mod Host
pub mod Remote
pub mod Machine
pub mod Handshake
