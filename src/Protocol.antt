-- ===== src/Protocol.antt =====
-- The wire format: protocol/codes.go, protocol/reader.go, protocol/writer.go.
pub mod Codes
pub mod LittleEndian
pub mod Reader
pub mod Writer
pub mod Decode
