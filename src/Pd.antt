-- ===== src/Pd.antt =====
-- internal/pd: parts of the placement driver.
pub mod Maps
pub mod Tso
pub mod Moves
pub mod Ids
pub mod Metadata
pub mod Scheduler
