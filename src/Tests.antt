-- ===== src/Tests.antt =====
-- Runs of the programs at concrete inputs: every theorem of the list of results that has
-- conditions is applied to an input that meets them.
pub mod Common
pub mod Session
pub mod Versions
pub mod Locking
pub mod Config
pub mod Server
pub mod Pages
pub mod Proxy
pub mod Origins
pub mod Sharing
pub mod Threads
pub mod Datagrams
