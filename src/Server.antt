-- ===== src/Server.antt =====
-- The messages to and from the server: the directory messages/server.
pub mod Requests
pub mod Responses
