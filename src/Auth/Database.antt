-- ===== src/Auth/Database.antt =====
-- The queries of rzauth/src/AuthServer: DB_Account.cpp.
pub mod Account
pub mod Names
pub mod Passwords
pub mod Tests
