-- ===== src/Auction/RoundTrip.antt =====
-- What a dump of all auctions keeps of a writer, when a writer imports it.
pub mod Categories
pub mod Order
pub mod Simple
pub mod Complex
