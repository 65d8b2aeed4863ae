-- ===== src/Ledger.antt =====
-- omega_evidence/ledger.py: the append-only, hash-chained ledger.
pub mod Strict
pub mod Portable
pub mod Chain
pub mod Spec
pub mod Decides
pub mod Reports
pub mod Writer
pub mod Append
pub mod Appended
pub mod Raises
