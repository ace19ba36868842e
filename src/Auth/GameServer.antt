-- ===== src/Auth/GameServer.antt =====
-- rzauth/src/AuthServer/GameServerSession.cpp, and what is proved of it.
pub mod Packets
pub mod Handlers
pub mod Safety
