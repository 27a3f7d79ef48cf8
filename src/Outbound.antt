-- ===== src/Outbound.antt =====
-- src/server/outbound-flow.ts: flow control of one client's WebSocket. `Messages` says which
-- messages may be coalesced or dropped, `Limits` is the constructor's validation, `Flow` has the
-- controller's state and operations, and the other children prove what it promises.
pub mod Messages
pub mod Limits
pub mod Flow
pub mod Shape
pub mod Accounting
pub mod Sequence
pub mod Order
pub mod Lossless
pub mod Delivery
pub mod Guarantees
pub mod Polling
mod Tests
