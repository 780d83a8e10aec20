-- ===== src/Net.antt =====
-- The wire between client and server: 32-bit words in network byte order, and the session of
-- stupids-server/tcpcommandserver.cpp.
pub mod Words
pub mod Session
pub mod Runs
pub mod Gone
mod Examples
