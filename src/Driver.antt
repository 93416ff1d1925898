-- ===== src/Driver.antt =====
-- monoio/src/driver: what the drivers keep for each operation and each source of events.
pub mod Lifecycle
pub mod Ready
pub mod Uring
pub mod SharedFd
pub mod Dispatch
