-- ===== src/Dfc.antt =====
-- The client of the distributed file system, PA4/client/dfc.c.
pub mod Messages
pub mod Network
pub mod Put
pub mod Get
pub mod Exchange
pub mod Shelf
pub mod Split
pub mod Placement
pub mod RoundTrip
pub mod Incomplete
pub mod Listing
pub mod Command
pub mod Config
