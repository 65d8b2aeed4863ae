-- ===== src/Gate.antt =====
-- omega_evidence/pqbackends/gate.py: the known-answer test before a post-quantum backend is used.
pub mod Kat
pub mod Gated
