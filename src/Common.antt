-- ===== src/Common.antt =====
-- src/common: the helpers that the producer and the consumer share.
pub mod MixAll
pub mod Validators
pub mod PullSysFlag
mod Tests
