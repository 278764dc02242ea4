-- ===== src/Ext/Filler.antt =====
-- ext/lib/snapshot.ts, `FormFiller`: values typed into the live form.
pub mod Actions
pub mod Choices
pub mod Controls
pub mod Apply
