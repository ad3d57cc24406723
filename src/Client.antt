-- ===== src/Client.antt =====
-- src/client/*.rs: the methods of a client, one module for each source file. `self` is the task's
-- own client.
pub mod Send
pub mod Registration
pub mod Capability
pub mod User
pub mod Membership
pub mod ChannelMode
pub mod Query
pub mod Info
pub mod Dispatch
pub mod Fields
