-- ===== src/RebootCause.antt =====
-- scripts/determine-reboot-cause: the cause of the last reboot, from the kernel's command line, the
-- platform and the file that the software leaves.
pub mod Expression
pub mod History
pub mod RoundTrip
pub mod Decision
use sonic_host_services.Base.{
  Bool, true, false, not, ◌&&◌, ◌||◌, Option, none, some, List, [], ◌∷◌, ◌++◌, if◌then◌else◌,
  String, ◌>>=◌,
}
use sonic_host_services.Base.Text.{Text, codes, text_eq, occurs}
use sonic_host_services.RebootCause.Expression.{until_newline, search_user, search_panic, Issued}

-- REBOOT_CAUSE_UNKNOWN itself, or another text object; the code tells them apart by `is`.
pub data Cause : Type 0 where
  the_unknown : Cause
  other : Text → Cause

abbrev pub unknown : Text
unknown = codes "Unknown"

abbrev pub text_of : Cause → Text
text_of the_unknown = unknown
text_of (other text) = text

-- The first line of REBOOT_TYPE_KEXEC_FILE, if there is the file.
abbrev pub parse_line : Text → Option Text
parse_line line =
    if occurs (codes "SONIC_BOOT_TYPE=warm") line || occurs (codes "SONIC_BOOT_TYPE=fastfast") line
    then some (codes "warm-reboot")
    else if occurs (codes "SONIC_BOOT_TYPE=fast") line
    then some (codes "fast-reboot")
    else if occurs (codes "SONIC_BOOT_TYPE=express") line
    then some (codes "express-reboot")
    else none

unfoldable pub parse_warmfast_reboot_from_proc_cmdline : Option Text → Option Text
parse_warmfast_reboot_from_proc_cmdline none = none
parse_warmfast_reboot_from_proc_cmdline (some file) = parse_line (until_newline file)

-- The files under REBOOT_CAUSE_DIR and the mark of a first boot.
pub record Files : Type 0 where
  pub reboot_cause_file : Option Text
  pub first_boot : Bool

abbrev pub find_software_reboot_cause_from_reboot_cause_file : Option Text → Cause
find_software_reboot_cause_from_reboot_cause_file none = the_unknown
find_software_reboot_cause_from_reboot_cause_file (some file) = other (until_newline file)

-- From the build version that device_info gives, if it gives one.
abbrev pub find_first_boot_version : Option Text → Text
find_first_boot_version none = codes " (First boot of SONiC version unknown)"
find_first_boot_version (some version) =
    codes " (First boot of SONiC version " ++ version ++ codes ")"

-- The cause, and whether the mark of a first boot is removed.
unfoldable pub find_software_reboot_cause : Option Text → Files → Cause × Bool
find_software_reboot_cause version f =
    let cause = find_software_reboot_cause_from_reboot_cause_file f.reboot_cause_file in
    if text_eq (text_of cause) unknown && f.first_boot
    then (other (text_of cause ++ find_first_boot_version version), true)
    else (cause, false)

-- What get_reboot_cause_from_platform gives: the platform's major and minor cause, or none for an
-- ImportError, a FileNotFoundError or a NotImplementedError.
abbrev pub Platform : Type 0
Platform = Option (Text × Text)

-- The text is empty if there is no minor cause.
abbrev pub minor_text : Text → Text
minor_text [] = []
minor_text (c ∷ minor) = codes " (" ++ (c ∷ minor) ++ codes ")"

abbrev pub find_hardware_reboot_cause : Platform → Text
find_hardware_reboot_cause none = codes "Non-Hardware (N/A)"
find_hardware_reboot_cause (some (major, minor)) = major ++ minor_text minor

abbrev pub not_available : Text
not_available = codes "N/A"

abbrev pub additional : Cause → Option Text → Text
additional (other text) cmdline = text
additional the_unknown none = not_available
additional the_unknown (some cmdline) = cmdline

abbrev pub software_or_cmdline : Cause → Option Text → Text
software_or_cmdline cause none = text_of cause
software_or_cmdline (other text) (some cmdline) = text
software_or_cmdline the_unknown (some cmdline) = cmdline

abbrev pub is_hardware : Text → Text → Bool
is_hardware software hardware =
    not (occurs (codes "Kernel Panic") software)
    && not (occurs (codes "Heartbeat with the Supervisor card lost") software)
    && not (occurs (codes "Non-Hardware") hardware)

-- The previous cause and the additional information.
unfoldable pub decide : Option Text → Text → Cause → Text × Text
decide cmdline hardware software =
    if is_hardware (text_of software) hardware
    then (hardware, additional software cmdline)
    else (software_or_cmdline software cmdline, not_available)

-- What the device answers at the boot.
pub record Boot : Type 0 where
  pub proc_cmdline : Option Text
  pub platform : Platform
  pub build_version : Option Text

unfoldable pub determine_reboot_cause : Boot → Files → (Text × Text) × Bool
determine_reboot_cause b f =
    let found = find_software_reboot_cause b.build_version f in
    (
      decide (parse_warmfast_reboot_from_proc_cmdline b.proc_cmdline)
          (find_hardware_reboot_cause b.platform) found.0,
      found.1,
    )

-- reboot_cause_dict, but for the time when it is made.
pub record Report : Type 0 where
  pub cause : Text
  pub user : Text
  pub time : Text
  pub comment : Text

abbrev pub report : Text → Text → Text → Text → Report
report cause user time comment = record {
  cause = cause;
  user = user;
  time = time;
  comment = comment;
}

abbrev pub of_issued : Text → Text → Option Issued → Report
of_issued previous comment none = report previous not_available not_available comment
of_issued previous comment (some i) = report i.command i.user i.time comment

abbrev pub of_panic : Text → Text → Option Text → Report
of_panic previous comment none = report previous not_available not_available comment
of_panic previous comment (some time) = report (codes "Kernel Panic") not_available time comment

unfoldable pub get_reboot_cause_dict : Text → Text → Report
get_reboot_cause_dict previous comment =
    if occurs (codes "User issued") previous
    then of_issued previous comment (search_user previous)
    else if occurs (codes "Kernel Panic") previous
    then of_panic previous comment (search_panic previous)
    else if occurs (codes "Heartbeat with the Supervisor card lost") previous
    then report (codes "Heartbeat with the Supervisor card lost") not_available not_available
        comment
    else report previous not_available not_available comment

-- The report that is stored, and the files that the next boot finds if nothing writes to them.
unfoldable pub main : Boot → Files → Report × Files
main b f =
    let determined = determine_reboot_cause b f in
    (
      get_reboot_cause_dict determined.0.0 determined.0.1,
      record { reboot_cause_file = some unknown; first_boot = f.first_boot && not determined.1 },
    )
