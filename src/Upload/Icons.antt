-- ===== src/Upload/Icons.antt =====
-- rzauth/src/UploadServer/IconServerSession.cpp: the requests for icons.
pub mod Parser
pub mod Requests
