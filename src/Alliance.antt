-- ===== src/Alliance.antt =====
-- The package alliance: proofs of Bitcoin transactions, from the alliance chain to a vote.
pub mod Types
pub mod WaitingDb
pub mod Voter
pub mod Observer
pub mod Signer
pub mod Setup
pub mod Session
