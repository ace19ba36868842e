-- ===== src/Auth/Log.antt =====
-- rzauth/src/AuthServer/LogServerClient.cpp.
pub mod Client
pub mod Pending
pub mod Tests
