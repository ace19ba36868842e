-- ===== src/Upload/Transfers.antt =====
-- rzauth/src/UploadServer: uploads that a game server announces and a client makes.
pub mod Server
pub mod Tickets
pub mod Safety
