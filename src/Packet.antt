-- ===== src/Packet.antt =====
-- Packets: their definitions, their buffers and the map from a header to its definition
-- (src/Packet).
pub mod Definition
pub mod Buffer
pub mod Map
