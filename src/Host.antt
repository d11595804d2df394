-- ===== src/Host.antt =====
-- The D-Bus services of host_modules/, and the files that they work on.
pub mod DbUtils
pub mod Files
pub mod GnsiConsole
pub mod Reboot
pub mod DockerService
pub mod GnoiReset
pub mod FileService
pub mod SshMgmt
pub mod DebugInfo
pub mod Image
pub mod Glome
pub mod Gcu
pub mod Systemd
pub mod DebugService
