-- ===== src/Json.antt =====
-- What the package uses of Python's json module: `json.dumps` with sorted keys, and `json.loads`.
pub mod Print
pub mod Scan
pub mod Load
