-- ===== src/Auth/Tests.antt =====
-- Runs of the model of rzauth/src/AuthServer.
pub mod Runs
pub mod Laws
