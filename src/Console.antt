-- ===== src/Console.antt =====
-- scripts/console-monitor: the serial link's frame protocol, its filter and the services on it.
pub mod Crc
pub mod Escape
pub mod Frame
pub mod Filter
pub mod Dte
pub mod Proxy
pub mod Dce
