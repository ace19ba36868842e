-- ===== src/Reconnect/Safety.antt =====
-- That the events of rzgamereconnect/src/AuthServer read no pointer that dangles.
pub mod Replies
pub mod Login
pub mod Packets
pub mod Events
