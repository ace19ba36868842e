-- ===== src/Auth/Session/Safety.antt =====
-- No packet, query result or end of connection makes a client's session read a dangling pointer.
pub mod Players
pub mod Login
pub mod Packets
