-- ===== src/Chain.antt =====
-- The package chain: block headers, their database, and the blockchain over it.
pub mod Types
pub mod Codec
pub mod Cache
pub mod HeaderDb
pub mod Headers
pub mod Difficulty
pub mod Checkpoints
pub mod Blockchain
pub mod Session
