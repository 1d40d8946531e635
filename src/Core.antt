-- ===== src/Core.antt =====
-- The crate `core`: identifiers, ring entries, the ring file, buckets and file names.
pub mod Protocol
pub mod InitializedEntry
pub mod Entry
pub mod Ring
pub mod Buckets
pub mod Views
pub mod FileName
pub mod Mimes
