-- ===== src/Tests.antt =====
-- Runs of the models on concrete inputs, and an instance of each theorem that has hypotheses.
mod Runtime
mod Scenario
mod Escrow
mod Deal
mod Layout
mod Burn
mod Orchestrator
mod Web3
mod Spike
mod Runs
mod Anchor
mod Probe
mod Pump
