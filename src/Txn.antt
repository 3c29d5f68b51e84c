-- ===== src/Txn.antt =====
-- internal/storage/txn: the actions of a transaction on its keys.
pub mod Outcome
pub mod Actions
pub mod Status
pub mod AsyncCommit
pub mod Concurrency
pub mod Pessimistic
