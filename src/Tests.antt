-- ===== src/Tests.antt =====
-- Runs at concrete inputs, and the theorems at concrete data.
mod Console
mod Cacl
mod Translate
mod Hostcfg
mod RebootCause
mod Gnsi
mod Reboot
mod Docker
mod Shutdown
mod FileService
mod Featured
mod Ssh
mod Debug
mod Image
mod Glome
mod DebugService
