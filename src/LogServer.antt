-- ===== src/LogServer.antt =====
-- rzlog/src/LogServer: the server that writes the log messages of the other servers to files.
pub mod Reader
pub mod Session
pub mod Files
pub mod RoundTrip
pub mod Faults
pub mod Tests
