-- ===== src/Spike.antt =====
-- spikes/pda-buyer: the clients that prove a program-derived buyer against pump.fun.
pub mod Fees
pub mod Pump
pub mod Lite
pub mod Anchor
pub mod Program
pub mod Jito
pub mod Config
pub mod Steps
pub mod LiteRun
pub mod FeeProbe
pub mod Report
pub mod Scripts
pub mod Run
