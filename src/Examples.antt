-- ===== src/Examples.antt =====
-- Concrete stores and transactions, and the theorems at work on them.
pub mod Data
mod Commit
mod Status
mod Locks
mod Store
mod Scans
mod Collection
mod Driver
mod Ids
mod Metadata
mod Shedding
mod Managers
mod Bytes
mod Latches
