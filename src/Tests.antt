-- ===== src/Tests.antt =====
-- Runs of the modelled code on small inputs, and the theorems applied to them.
mod LedgerRuns
mod TrustRuns
mod VerifierRuns
mod TrailRuns
mod ChipRuns
mod AgentRuns
mod GateRuns
mod PreservationRuns
mod DsseRuns
mod EpochRuns
mod ProducerRuns
mod TombstoneRuns
