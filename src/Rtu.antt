-- ===== src/Rtu.antt =====
-- modbus/rtu: the RTU frame and its incremental reader.
pub mod Adu
pub mod Framer
pub mod Round
pub mod Framed
