-- ===== src/Persistence.antt =====
-- internal/local-slave/persistence: the storages that keep a local slave's data.
pub mod Layout
pub mod Disk
pub mod Recovers
pub mod FileStorage
pub mod MmapStorage
pub mod Sql
