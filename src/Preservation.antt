-- ===== src/Preservation.antt =====
-- omega_evidence/preservation.py: long-term evidence records and their renewal.
pub mod Tree
pub mod Record
pub mod Renewal
pub mod Check
pub mod Rounds
pub mod Bound
pub mod Chained
pub mod Sound
pub mod Complete
pub mod Passing
pub mod Sealing
pub mod Built
pub mod Lasting
pub mod Kept
