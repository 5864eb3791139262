-- ===== src/Sdk.antt =====
-- The client library, packages/sdk/src.
pub mod StateMachine
pub mod RefundTimeline
pub mod Amounts
