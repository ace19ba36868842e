-- ===== src/Upload.antt =====
-- rzauth/src/UploadServer.
pub mod Icons
pub mod Transfers
pub mod Tests
