-- ===== src/Lib.antt =====
-- sonic-host-services: the host daemons and the D-Bus services of SONiC.
--
-- Parts. The console monitor (scripts/console-monitor) watches serial console links. Its DTE service
-- sends heartbeat frames to the console; on the other side the DCE service starts one proxy process
-- per configured link, and the proxy hands the data between the serial device and a pseudo-terminal
-- while its frame filter takes the heartbeats out of it and the link's state goes to a database. The
-- D-Bus services (host_modules/*.py) are objects of one host process; each works by itself on files,
-- commands and containers of the host. The shutdown daemon (scripts/gnoi_shutdown_daemon.py) halts a
-- DPU module that is shut down, in one thread per module. The feature daemon (scripts/featured) starts
-- and stops the services of features as the FEATURE table says, those of delayed features once the
-- ports are up. The control plane ACL daemon (scripts/caclmgrd) translates the ACL tables of CONFIG_DB
-- to iptables commands, opens and closes ports as other tables say, and gathers changes before it
-- translates again. At boot determine-reboot-cause finds the cause of the last reboot and stores it,
-- and process-reboot-cause brings the stored causes to the database and drops the oldest. The
-- configuration daemon (scripts/hostcfgd) brings tables of CONFIG_DB to files of the host.
--
-- Base: shared names, Boolean tests on numbers, lists, association lists (Base/Dict), sets as lists
-- (Base/Set), bit operations (Base/Bits), texts as code points (Base/Text) and chains of computations
-- that may raise (Base/Options).
--
-- Console, for scripts/console-monitor:
--   Console/Crc: crc16_modbus. Console/Escape: escape_data, unescape_data.
--   Console/Frame: Frame.build, Frame.parse, Frame.create_heartbeat, Frame.is_heartbeat.
--   Console/Filter: FrameFilter, a step for every byte; the callbacks are the events of a step.
--   Console/Dte: DTEService. Console/Proxy: ProxyService from its initialised state on.
--   Console/Dce: DCEService.
-- Host, for host_modules:
--   Host/Files: the files that a module works on, and the answers that the coming system calls give.
--   Host/GnsiConsole: gnsi_console.py. Host/Reboot: reboot.py. Host/DockerService:
--   docker_service.py. Host/GnoiReset: gnoi_reset.py. Host/FileService: file_service.py.
--   Host/SshMgmt: ssh_mgmt.py, with the lines it writes in Host/SshMgmt/Lines.
--   Host/DebugInfo: debug_info.py, with its commands in Host/DebugInfo/Commands and the files that
--   their output goes to in Host/DebugInfo/Redirect. Host/Image: image_service.py. Host/Glome:
--   glome.py. Host/Gcu: gcu.py, config_engine.py and showtech.py. Host/Systemd: systemd_service.py.
--   Host/DebugService: debug_service.py, with a round of its loop for every select.
-- Shutdown, for scripts/gnoi_shutdown_daemon.py: the handler of one transition; Shutdown/Daemon: its
--   main loop with the set of active transitions.
-- Featured, for scripts/featured: FeatureHandler. Featured/Units: the services of a feature and the
--   commands on them. Featured/Tables: what is written back to CONFIG_DB. Featured/Handler: the
--   updates and the messages that bring them, with the rendered features as their data.
-- Cacl, for scripts/caclmgrd: ACL_SERVICES and the words of commands. Cacl/Parse: int, sorted and
--   parse_int_to_tcp_flags. Cacl/Rules: the rules that a table keeps, and Cacl/Emit their commands;
--   Cacl/Translate: the walk over the tables, and the commands after it. Cacl/Front and its child
--   First: the commands before. Cacl/Blocked: the addresses of interfaces. Cacl/Whole: the
--   translation with all its parts, and the NAT rules. Cacl/DashHa: the DPU table. Cacl/Toggles:
--   VXLAN and REDFISH. Cacl/Updates: the update thread of a namespace.
-- RebootCause, for scripts/determine-reboot-cause, with its regular expressions in
--   RebootCause/Expression; RebootCause/History: scripts/process-reboot-cause.
-- Hostcfg/Ssh: SshServer of scripts/hostcfgd. Hostcfg/Ldap: scripts/ldap.py.
-- Host/DbUtils: utils/sonic_db_utils.py and utils/platform_info.py.
-- The files below a component's file prove things about it. Tests holds runs and applied theorems.
--
-- Correspondence. An object is a record of its fields, a method a function from the record to the
-- record, with what it returns and what it asks of the outside as a list of calls, events or
-- effects. Names are the source's, without the leading underscore. A byte is a number; where the
-- code keeps a byte or a 16-bit number, the remainder is written out. Times are whole milliseconds
-- of one clock that a round of the proxy reads once. Replies keep their code; the texts of messages
-- are constructors. Sets are lists in the order of their insertion, and are iterated in that order.
-- A lock is held only while fields are read or written, so a method is one step.
--
-- Parameters. systemctl answers from the calls made before it; a system call on a file may fail, and
-- a failed copy or write may leave anything at its destination; the Docker SDK is the exceptions
-- that it raises; openssl is a function that may fail; json.loads, the start of a thread, the
-- responses of requests and the commands of gcu, showtech and sonic-installer are given by their
-- results. The commands of the feature daemon and of the debug collector answer from the actions
-- before. A hash of hashlib is a state that is fed with texts; that feeding it in parts is feeding it
-- with the whole is a hypothesis.
--
-- An update of the ACLs counts as run whatever its commands answer, since their errors are only
-- logged. sshd -T is a function of the edits made, whose texts are left out; what `ipaddress` takes
-- for an IPv6 address, and what the device answers about its chains and addresses, are arguments. An
-- address of an interface is a number with its prefix. A raised exception is the result `none`.
--
-- The subscription of the shutdown daemon is reduced to the modules that its messages name, and the
-- loop of the feature daemon to the messages that it hands to its handler. The rendering of a
-- feature's templates, the wait for a service that is being activated and the failure of a write to
-- its systemd directory are left out.
--
-- Fuel. The loops that poll until a deadline run on fuel. The probes of a halt (wait_halt in
-- Host/Reboot) are five seconds apart, so one more than a fifth of the timeout in seconds is enough;
-- those of the shutdown daemon (poll in Shutdown) are at least one second apart, so one more than the
-- timeout in seconds is enough. The loop of a checksum (feed in Host/Image) runs on one more than the
-- length of the file, which is enough as no chunk is empty. All three are proved. The digits of a
-- number (octal in Host/FileService) run on the number itself, which is at least their number.
--
-- Not modelled: logging; the connections to databases and to D-Bus; the set-up of terminals and
-- processes; the texts of exceptions; the daemons procdockerstatsd and aaastatsd; the handlers of hostcfgd but for SSH; of caclmgrd the DHCP chain and the other
-- rules for dual ToR, and running the commands; the folders that determine-reboot-cause makes for
-- DPUs; the pool of one thread of debug_service.
pub mod Base
pub mod Cacl
pub mod RebootCause
pub mod Hostcfg
pub mod Console
pub mod Host
pub mod Shutdown
pub mod Featured
mod Tests
