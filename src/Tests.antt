-- ===== src/Tests.antt =====
-- Concrete instances of the parameters and states, and the theorems at them.
mod Values
mod Crypto
mod Packet
mod Driver
mod Services
mod Link
mod Sending
mod Surface
mod LinkValues
mod Host
mod Remote
mod Handshake
