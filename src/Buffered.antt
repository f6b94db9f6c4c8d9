-- ===== src/Buffered.antt =====
-- The batching that a caller flushes, buffered.go and buffered_capacity.go.
pub mod Capacity
pub mod Sizes
pub mod Executor
pub mod Flushing
pub mod Order
pub mod Promises
pub mod Examples
