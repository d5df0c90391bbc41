-- ===== src/Supervisor.antt =====
-- services/supervisor: health probes, the restart ladder, the relay of safe mode, and the disk.
pub mod Service
pub mod Restart
pub mod Relay
pub mod Health
pub mod Storage
