-- ===== src/Queue.antt =====
-- internal/queue: the queues between collection and delivery.
pub mod Memory
pub mod Files
pub mod Codec
pub mod Scope
pub mod Disk
pub mod Logs
pub mod Migration
