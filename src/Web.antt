-- ===== src/Web.antt =====
-- The web server, PA2/server.c: one connection, served by one process.
pub mod Content
pub mod Request
pub mod Reply
pub mod Service
pub mod Steps
pub mod Ends
pub mod Confined
pub mod OneAnswer
pub mod Page
pub mod NoConnection
