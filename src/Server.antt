-- ===== src/Server.antt =====
-- The server, SOParte2/src/server.
pub mod Kvs
pub mod Parser
pub mod Sort
pub mod Operations
pub mod Locking
pub mod Serial
pub mod Session
pub mod Registration
pub mod Job
pub mod Directory
