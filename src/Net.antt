-- ===== src/Net.antt =====
-- librzu/src/lib/NetSession: what a session does with the bytes that arrive, and which peers it admits.
pub mod Framing
pub mod Bans
pub mod Streams
pub mod Encodings
pub mod Tests
