-- ===== src/Agent.antt =====
-- omega_evidence/agent.py: what is recorded of an agent's action.
pub mod Attestation
pub mod Classes
