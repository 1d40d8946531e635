-- ===== src/X11.antt =====
-- The crate `x11`: what the clipboard watcher decides.
pub mod BestTarget
pub mod Deduplication
pub mod Requests
pub mod Paste
pub mod Copy
pub mod Loopback
pub mod Watcher
