-- ===== src/Tcp.antt =====
-- transport/tcp: the MBAP frame, the server and the client.
pub mod Adu
pub mod Server
pub mod Client
