-- ===== src/Ext.antt =====
-- The browser extension (ext/): autofill of job application forms from the user's hh resume.
pub mod Api
pub mod DeterministicFill
pub mod Edits
pub mod Dom
pub mod Snapshot
pub mod Filler
pub mod Schema
pub mod Dropdowns
pub mod ChatStore
pub mod Panel
pub mod FieldValue
pub mod Content
pub mod ChatTurn
pub mod Auth
pub mod Background
pub mod SessionSync
mod Examples
