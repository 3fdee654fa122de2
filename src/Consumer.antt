-- ===== src/Consumer.antt =====
-- src/consumer: the consumer's side of the client.
pub mod ProcessQueue
pub mod Allocate
pub mod Offset
pub mod Rebalance
pub mod Concurrently
pub mod Orderly
pub mod Pull
