-- ===== src/Serial.antt =====
-- transport/rtu: RTU frames on a serial port, the server and the client.
pub mod Port
pub mod Client
pub mod Settings
pub mod Server
