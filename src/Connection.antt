-- ===== src/Connection.antt =====
-- connection.go: the bounded JSON-RPC connection, a module for each part of its state. Each part is
-- guarded by one mutex or is one channel in the source, and each critical section is one function.
pub mod Options
pub mod Batch
pub mod AfterResponse
pub mod Callbacks
pub mod Handling
pub mod Inbound
pub mod Notifications
pub mod Requests
