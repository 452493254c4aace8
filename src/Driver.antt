-- ===== src/Driver.antt =====
-- The radio driver (src/ILoLaDriver.h and src/PacketDriver) with the clock that it owns
-- (src/LoLaClock).
pub mod Clock
pub mod State
pub mod Slot
pub mod Power
pub mod Send
pub mod Receive
pub mod Events
