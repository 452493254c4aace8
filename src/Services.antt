-- ===== src/Services.antt =====
-- The services that a driver serves (src/Services).
pub mod Manager
pub mod Task
pub mod Send
