-- ===== src/Host/DbUtils/Names.antt =====
-- The names that keys carry, and the answers about the platform.
use sonic_host_services.Base.{
  true, Option, none, some, List, [], ◌∷◌, ◌++◌, map, ◌≡◌, refl, ap, All,
}
use sonic_host_services.Base.Text.{Text, codes}
use sonic_host_services.Host.DbUtils.{
  after_bar, names_of, get_portchannels, PlatformInfo, VersionFiles, read_platform_info,
  get_platform_infos,
}

abbrev pub portchannel_key : Text → Text
portchannel_key name = codes "PORTCHANNEL|" ++ name

-- The keys of some portchannels give their names back, with a bar in them or without.
pub get_portchannels-portchannel_key :
    (names : List Text) → get_portchannels (some (map portchannel_key names)) ≡ names
unfolding names_of after_bar
get_portchannels-portchannel_key [] = refl
get_portchannels-portchannel_key (name ∷ names) =
    ap (λ x. name ∷ x) (get_portchannels-portchannel_key names)

-- While there is a file of the version of the system, no call is answered.
pub get_platform_infos-none :
    (calls : List VersionFiles)
    → All (λ (f : VersionFiles). f.has_os_release ≡ true) calls
    → All (λ (answer : Option PlatformInfo). answer ≡ none) (get_platform_infos calls none)
unfolding get_platform_infos read_platform_info
get_platform_infos-none [] h = tt
get_platform_infos-none (files ∷ calls) h = rw (h.0) (refl, get_platform_infos-none calls h.1)
