-- ===== src/Tests.antt =====
-- Runs of the model at concrete inputs.
pub mod Wire
pub mod Answers
pub mod Uploads
pub mod Transfers
pub mod Requests
pub mod Slots
pub mod Shares
pub mod Streams
pub mod Routing
pub mod Sessions
pub mod Messages
pub mod Pools
