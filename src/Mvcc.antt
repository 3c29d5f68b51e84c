-- ===== src/Mvcc.antt =====
-- internal/storage/mvcc: keys with timestamps, the write accumulator, and the readers.
pub mod Key
pub mod Snapshot
pub mod Txn
pub mod Reader
pub mod Versions
pub mod PointGetter
pub mod Iterator
pub mod Scanner
pub mod Scanning
pub mod Holds
