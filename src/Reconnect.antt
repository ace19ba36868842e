-- ===== src/Reconnect.antt =====
-- rzgamereconnect/src/AuthServer: between game servers and the authentication server, connections that
-- are made again when the latter goes away.
pub mod State
pub mod AuthSession
pub mod GameServer
pub mod Links
pub mod Safety
pub mod Queue
pub mod Accounts
pub mod Return
pub mod Cycle
pub mod Stranded
pub mod Tests
