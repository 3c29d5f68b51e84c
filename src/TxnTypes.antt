-- ===== src/TxnTypes.antt =====
-- pkg/txntypes: timestamps, lock and write records, and their binary form.
pub mod Timestamp
pub mod Wire
pub mod Write
pub mod Lock
