-- ===== src/Mvcc/Scanning.antt =====
-- Forward scans (Mvcc/Scanner) over entries that hold versions: where the moves of the write cursor
-- lead, what `handleWrite` answers, and what the calls of `Next` answer one after the other.
pub mod At
pub mod Moves
pub mod Leaving
pub mod Values
pub mod Records
pub mod Next
pub mod Rows
pub mod Start
pub mod Locked
