-- ===== src/Tests.antt =====
-- Concrete runs of the program's parts, and examples of what is shown of them.
mod Rtu
mod Slave
mod Tcp
mod Gateway
mod OverTcp
mod Servers
mod Persistence
mod System
