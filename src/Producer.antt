-- ===== src/Producer.antt =====
-- src/producer: the producer's side of the client.
pub mod Send
