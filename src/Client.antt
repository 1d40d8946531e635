-- ===== src/Client.antt =====
-- The crate `client-sdk`: how clients read the database.
pub mod RingReader
pub mod EntryReader
pub mod Search
pub mod UiActor
pub mod DuplicateDetector
