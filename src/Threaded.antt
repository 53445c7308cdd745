-- ===== src/Threaded.antt =====
-- The web server with threads, PA2/threaded_server.c: one thread for each connection, one request
-- for each thread, all in one process.
pub mod Content
pub mod Request
pub mod Service
pub mod Page
pub mod Words
