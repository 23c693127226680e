-- ===== src/Escrow/Ledger/Kept.antt =====
-- Every instruction, and every payment from outside, keeps the invariant.
pub mod Raise
pub mod Begin
pub mod Payout
pub mod Backing
pub mod Payback
