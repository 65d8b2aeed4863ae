-- ===== src/Trust.antt =====
-- omega_evidence/trust.py: the trust-on-first-use registry.
pub mod Store
pub mod Registry
pub mod Events
pub mod Methods
pub mod Refines
pub mod Tofu
