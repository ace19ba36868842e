-- ===== src/Auction/Complex.antt =====
-- The auctions of rzauctionmonitor whose price, bid and duration are read, with an estimate of their end.
pub mod Data
pub mod Status
pub mod Writer
pub mod Lifecycle
pub mod Same
pub mod InRange
pub mod Following
