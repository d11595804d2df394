-- ===== src/Cacl/DashHa.antt =====
-- update_dash_ha_rules of scripts/caclmgrd: a port is open for every DPU that has one.
pub mod Ports
use sonic_host_services.Base.{
  Bool, true, false, Option, none, some, List, [], ◌∷◌, ◌++◌, String, str_eq, if◌then◌else◌,
}
use sonic_host_services.Base.Dict.{lookup, insert, erase}
use sonic_host_services.Cacl.{Command, words, ns_prefix}
use sonic_host_services.Cacl.Rules.{nonempty}

-- The commands of make_dash_ha_rules and of remove_dash_ha_rules that run, by their port.
pub data Action : Type 0 where
  add_rules : String → Action
  remove_rules : String → Action

-- For iptables and for ip6tables.
abbrev pub both : String → List String → List Command
both namespace args =
    (ns_prefix namespace ++ words ("iptables" ∷ args))
    ∷ (ns_prefix namespace ++ words ("ip6tables" ∷ args))
    ∷ []

abbrev pub make_dash_ha_rules : String → String → List Command
make_dash_ha_rules namespace port =
    both namespace ("-I" ∷ "INPUT" ∷ "2" ∷ "-p" ∷ "tcp" ∷ "--dport" ∷ port ∷ "-j" ∷ "ACCEPT" ∷ [])

abbrev pub remove_dash_ha_rules : String → String → List Command
remove_dash_ha_rules namespace port =
    both namespace ("-D" ∷ "INPUT" ∷ "-p" ∷ "tcp" ∷ "--dport" ∷ port ∷ "-j" ∷ "ACCEPT" ∷ [])

abbrev pub commands : String → Action → List Command
commands namespace (add_rules port) = make_dash_ha_rules namespace port
commands namespace (remove_rules port) = remove_dash_ha_rules namespace port

pub data Op : Type 0 where
  set : Op
  del : Op

-- The first field "swbus_port" of a message, with its value.
unfoldable pub swbus_port : List (String × String) → Option String
swbus_port [] = none
swbus_port ((field, value) ∷ fvs) =
    let rest = swbus_port fvs in if str_eq field "swbus_port" then some value else rest

-- What runs, and dashHaPortMap after it.
pub record Outcome : Type 0 where
  pub actions : List Action
  pub ports : List (String × String)

abbrev pub outcome : List Action → List (String × String) → Outcome
outcome actions ports = record { actions = actions; ports = ports }

abbrev pub delete : String → Option String → List (String × String) → Outcome
delete key none map = outcome [] map
delete key (some port) map = outcome (remove_rules port ∷ []) (erase key map)

abbrev pub replace : String → Option String → Option String → List (String × String) → Outcome
replace key port none map = outcome [] map
replace key none (some new_port) map = outcome (add_rules new_port ∷ []) (insert key new_port map)
replace key (some port) (some new_port) map =
    if str_eq new_port port
    then outcome [] map
    else outcome (remove_rules port ∷ add_rules new_port ∷ []) (insert key new_port map)

-- A port that is an empty text counts as none.
unfoldable pub update_dash_ha_rules :
    String → Op → List (String × String) → List (String × String) → Outcome
update_dash_ha_rules key del fvs map = delete key (nonempty (lookup key map)) map
update_dash_ha_rules key set fvs map =
    replace key (nonempty (lookup key map)) (nonempty (swbus_port fvs)) map

pub record Message : Type 0 where
  pub key : String
  pub op : Op
  pub fvs : List (String × String)

-- The messages of the DPU table, from the first on, with all that runs.
unfoldable pub receive : List Message → List (String × String) → Outcome
receive [] map = outcome [] map
receive (m ∷ messages) map =
    let now = update_dash_ha_rules m.key m.op m.fvs map in
    let later = receive messages now.ports in outcome (now.actions ++ later.actions) later.ports
