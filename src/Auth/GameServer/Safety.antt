-- ===== src/Auth/GameServer/Safety.antt =====
-- What the handlers of rzauth/src/AuthServer/GameServerSession.cpp keep.
pub mod Login
pub mod Accounts
pub mod Clients
pub mod Packets
