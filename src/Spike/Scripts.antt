-- ===== src/Spike/Scripts.antt =====
-- spikes/pda-buyer/src/status.ts and probe-bc-v2.ts: scripts that ask the chain and print what it answers.
pub mod Status
pub mod CurveProbe
