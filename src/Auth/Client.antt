-- ===== src/Auth/Client.antt =====
-- rzauth/src/AuthServer/ClientData.cpp, and what is proved of it.
pub mod Registry
pub mod Moves
pub mod Consistency
pub mod Counting
