-- ===== src/Auth.antt =====
-- rzauth/src/AuthServer.
pub mod State
pub mod Client
pub mod Game
pub mod GameServer
pub mod Session
pub mod Invariant
pub mod System
pub mod Flow
pub mod Database
pub mod Log
pub mod Tests
