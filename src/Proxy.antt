-- ===== src/Proxy.antt =====
-- The caching web proxy, PA3/proxy.c: one connection, served by one process, over the cache that
-- the processes share.
pub mod Content
pub mod Hash
pub mod Key
pub mod Request
pub mod Reply
pub mod World
pub mod Relay
pub mod Cache
pub mod Service
pub mod Steps
pub mod Answer
pub mod Fetch
pub mod Plain
pub mod Page
pub mod Refusals
pub mod BadAnswers
pub mod Sharing
pub mod Blocklist
