-- ===== src/Reconnect/Queue.antt =====
-- The order of what AuthSession.cpp of rzgamereconnect passes on.
pub mod Calls
pub mod Sends
pub mod Refinement
