-- ===== src/Auth/Flow.antt =====
-- What the components of rzauth/src/AuthServer do together, from one call to the next.
pub mod Registration
pub mod HandOver
pub mod Duplicates
pub mod ServerList
pub mod Dangling
