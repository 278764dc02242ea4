-- ===== src/Ext/Snapshot.antt =====
-- ext/lib/snapshot.ts, `PageObserver`: the live form read into facts.
pub mod Elements
pub mod Labels
pub mod Context
pub mod Picks
pub mod Options
pub mod Observe
