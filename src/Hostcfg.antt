-- ===== src/Hostcfg.antt =====
-- scripts/hostcfgd: handlers that bring tables of CONFIG_DB to the configuration of the host.
pub mod Ssh
pub mod Ldap
