-- ===== src/Server.antt =====
-- src/server/*.rs: the methods of the server, one module for each source file.
pub mod Clients
pub mod Channels
pub mod Registration
pub mod Stats
pub mod Messages
pub mod Mask
pub mod Lines
pub mod Connection
pub mod Run
pub mod Links
pub mod Task
