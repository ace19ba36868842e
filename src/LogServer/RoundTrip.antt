-- ===== src/LogServer/RoundTrip.antt =====
-- A message that rzauth writes to the log server is read there as it was.
pub mod Fields
pub mod Texts
pub mod Messages
pub mod Stream
