-- ===== src/RtuOverTcp.antt =====
-- transport/rtu-over-tcp: RTU frames on a TCP connection, the client and the server.
pub mod Client
pub mod Server
