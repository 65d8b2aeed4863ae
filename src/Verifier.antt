-- ===== src/Verifier.antt =====
-- omega_evidence/verifier.py: the verdict on an evidence pack from the bytes of its files.
pub mod Report
pub mod Scope
pub mod Forms
pub mod Checks
pub mod Signature
pub mod Verdict
pub mod Signer
pub mod Authentic
pub mod Limits
pub mod Overclaims
pub mod Anchoring
pub mod Demands
pub mod PqLayer
pub mod Hybrid
