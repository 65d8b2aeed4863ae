-- ===== src/Chip.antt =====
-- omega_evidence/chip_registry.py: the classes of chips that are known, and how they grow.
pub mod Classes
pub mod Rules
