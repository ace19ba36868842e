-- ===== src/Auth/Session.antt =====
-- rzauth/src/AuthServer/ClientSession.cpp, and what is proved of it.
pub mod Version
pub mod Handlers
pub mod Safety
