-- ===== src/Consumer/Offset.antt =====
-- The consumer's offset stores: how far each queue has been consumed.
pub mod Remote
pub mod Local
mod Tests
