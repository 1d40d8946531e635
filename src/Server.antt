-- ===== src/Server.antt =====
-- The crate `server`: the allocator behind the requests, and the buffers of its replies.
pub mod RingWriter
pub mod Store
pub mod Slots
pub mod FreeLists
pub mod Gc
pub mod Allocator
pub mod SendMsgBufs
pub mod Requests
pub mod Clients
pub mod Reactor
