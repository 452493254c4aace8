-- ===== src/Crypto.antt =====
-- The cryptographic parts (src/LoLaCrypto): the packet encoder, the key exchange and the tokens.
pub mod Library
pub mod Encoder
pub mod KeyExchange
pub mod Token
pub mod Mac
