-- ===== src/Net/Bans.antt =====
-- librzu/src/lib/NetSession: BanManager.cpp, and the sessions of SessionServer.cpp that it admits.
pub mod Manager
pub mod Limits
pub mod Sockets
