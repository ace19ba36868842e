-- ===== src/Net/Framing.antt =====
-- librzu/src/lib/NetSession/PacketSession.cpp: `onDataReceived`, which cuts a stream into packets.
pub mod Reader
pub mod Chunks
pub mod Stream
pub mod Frames
