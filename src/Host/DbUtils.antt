-- ===== src/Host/DbUtils.antt =====
-- utils/sonic_db_utils.py and utils/platform_info.py: what the host modules ask of the databases and of
-- the files that describe the platform.
pub mod Names
use sonic_host_services.Base.{
  ℕ, Bool, true, false, Option, none, some, List, [], ◌∷◌, ◌++◌, ◌==◌, String, if◌then◌else◌,
}
use sonic_host_services.Base.Text.{Text, codes}

-- The name of `key.split("|", 1)`: what follows the first bar, if there is one.
unfoldable pub after_bar : Text → Option Text
after_bar [] = none
after_bar (c ∷ key) = let rest = after_bar key in if c == 124 then some key else rest

abbrev pub collect : Option Text → List Text → List Text
collect none names = names
collect (some name) names = name ∷ names

-- A malformed key is passed over.
unfoldable pub names_of : List Text → List Text
names_of [] = []
names_of (key ∷ keys) = collect (after_bar key) (names_of keys)

-- The keys of APPL_DB, or none if connecting or asking raises.
abbrev pub get_portchannels : Option (List Text) → List Text
get_portchannels none = []
get_portchannels (some keys) = names_of keys

pub record PlatformInfo : Type 0 where
  pub os : Option Text
  pub asic_type : Option Text
  pub is_debian : Bool
  pub is_sonic : Bool

-- The files: whether there is one of the version of the system, and the asic type of the version of
-- SONiC, where there is the file and where it has the field.
pub record VersionFiles : Type 0 where
  pub has_os_release : Bool
  pub sonic_version : Option (Option Text)

abbrev pub sonic_info : Option (Option Text) → PlatformInfo
sonic_info none = record { os = none; asic_type = none; is_debian = false; is_sonic = false }
sonic_info (some asic_type) = record {
  os = none;
  asic_type = asic_type;
  is_debian = false;
  is_sonic = true;
}

-- _read_os_version_file names the module csv, which is not imported, and raises.
unfoldable pub read_platform_info : VersionFiles → Option PlatformInfo → Option PlatformInfo
read_platform_info files (some platform) = some platform
read_platform_info files none =
    if files.has_os_release then none else some (sonic_info files.sonic_version)

-- The answers of some calls, with the cache between them.
unfoldable pub get_platform_infos :
    List VersionFiles → Option PlatformInfo → List (Option PlatformInfo)
get_platform_infos [] cached = []
get_platform_infos (files ∷ calls) cached =
    let answer = read_platform_info files cached in answer ∷ get_platform_infos calls answer
