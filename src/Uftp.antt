-- ===== src/Uftp.antt =====
-- The file transfer over datagrams of PA1: client/uftp_client-2.c and server/uftp_server-2.c.
pub mod Send
pub mod Receive
pub mod Transfer
pub mod Loss
pub mod Server
pub mod Client
