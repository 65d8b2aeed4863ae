-- ===== src/Trail.antt =====
-- omega_evidence/interop/aat.py: the Merkle tree of record batches.
pub mod Merkle
pub mod Inclusion
pub mod Levels
pub mod Halves
pub mod Rebuild
pub mod Paths
pub mod Bottom
pub mod Number
pub mod Jcs
pub mod Depth
pub mod Epoch
pub mod Anchored
pub mod Tombstone
pub mod Erased
