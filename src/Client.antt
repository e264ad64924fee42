-- ===== src/Client.antt =====
-- The client: the directory client.
pub mod Channel
pub mod KeyMap
pub mod Queue
pub mod TransferState
pub mod Errors
pub mod SharedFile
pub mod Transfer
pub mod Outcome
pub mod Receiving
pub mod Sending
pub mod Delivery
pub mod Router
pub mod Search
pub mod PeerConns
pub mod PeerMessages
pub mod ServerMessages
pub mod Session
pub mod UploadRun
pub mod Download
pub mod Incoming
pub mod Decimal
pub mod Registry
pub mod UploadRequest
pub mod Slots
pub mod FileShare
