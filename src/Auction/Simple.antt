-- ===== src/Auction/Simple.antt =====
-- The auctions of rzauctionmonitor whose data is not looked into.
pub mod Data
pub mod Writer
pub mod Rounds
