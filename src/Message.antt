-- ===== src/Message.antt =====
-- src/message and include/Message*.h: messages, their ids, their properties and the wire format.
pub mod MessageExt
pub mod MessageQueue
pub mod Properties
pub mod MessageId
pub mod Decoder
mod Tests
