-- ===== src/Tests.antt =====
-- Concrete instances on which the theorems are applied.
mod Commitments
mod Accounts
mod Fields
mod Stores
mod Trits
mod Transcripts
mod Protocols
mod Proofs
