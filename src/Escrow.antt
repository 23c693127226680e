-- ===== src/Escrow.antt =====
-- programs/batchit/src: the escrow program, one module for each part of it.
pub mod Types
pub mod Runtime
pub mod Math
pub mod Funding
pub mod Launch
pub mod Settlement
pub mod Exit
pub mod Ledger
pub mod Spec
pub mod Layout
pub mod Pump
