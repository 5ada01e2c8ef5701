-- ===== src/Events.antt =====
-- packages/core/src/events: canonical events (Taxonomy) and the stream that numbers them, keeps a
-- history and hands them to subscribers (Stream), under any interleaving of its awaits.
pub mod Taxonomy
pub mod Stream
pub mod Numbering
mod Tasks
pub mod Handing
pub mod Delivery
