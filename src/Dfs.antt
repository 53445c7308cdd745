-- ===== src/Dfs.antt =====
-- The server of the distributed file system, PA4/server/dfs.c: one connection served by
-- `service_request`, over the directory that the server keeps.
pub mod Files
pub mod Request
pub mod Service
pub mod Node
pub mod Session
pub mod Locking
