-- ===== src/Producer.antt =====
-- What makes packs: omega_evidence/pack.py and omega_evidence/attestation.py.
pub mod Pack
pub mod Built
pub mod Judged
pub mod Signed
pub mod Accepted
pub mod Attest
