-- ===== src/Tests.antt =====
-- Runs of the model on small inputs, and every property at one.
mod Core
mod Server
mod Move
mod FreeLists
mod Reactor
mod Client
mod Search
mod Duplicates
mod X11
mod Watcher
mod SendMsgBufs
mod Gc
mod Pipeline
