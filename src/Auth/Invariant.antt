-- ===== src/Auth/Invariant.antt =====
-- What holds of the state of rzauth/src/AuthServer between two events.
pub mod Defs
pub mod Players
pub mod Sweep
pub mod Games
pub mod Servers
