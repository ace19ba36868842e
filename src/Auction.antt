-- ===== src/Auction.antt =====
-- rzauctionmonitor/lib: the writers that follow the auctions of the auction house from search to search.
pub mod Categories
pub mod Writer
pub mod Simple
pub mod Complex
pub mod RoundTrip
pub mod Tests
