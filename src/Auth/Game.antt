-- ===== src/Auth/Game.antt =====
-- rzauth/src/AuthServer/GameData.cpp, and what is proved of it.
pub mod Link
pub mod Servers
