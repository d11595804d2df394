-- ===== src/Hostcfg/Ldap.antt =====
-- scripts/ldap.py: the settings of the LDAP client, from the servers that hostcfgd hands to it.
use sonic_host_services.Base.{Bool, true, false, Option, none, some, List, [], ◌∷◌, String, ◌<>◌}
use sonic_host_services.Base.Dict.{lookup}

-- The fields of a server, numbers as their digits.
abbrev pub Server : Type 0
Server = List (String × String)

abbrev pub get : String → String → Option String → String
get attr cfg_str none = attr
get attr cfg_str (some value) = value

-- _do_cfg: the field of the first server, or the default.
abbrev pub do_cfg : List Server → String → String → String
do_cfg [] attr cfg_str = attr
do_cfg (server ∷ servers) attr cfg_str = get attr cfg_str (lookup cfg_str server)

abbrev pub cfg_base : List Server → String
cfg_base servers = do_cfg servers "ou=users,dc=example,dc=com" "base_dn"

abbrev pub cfg_bind : List Server → String
cfg_bind servers = do_cfg servers "" "bind_dn"

abbrev pub cfg_bindpw : List Server → String
cfg_bindpw servers = do_cfg servers "" "bind_password"

abbrev pub cfg_version : List Server → String
cfg_version servers = do_cfg servers "3" "version"

abbrev pub cfg_scope : List Server → String
cfg_scope servers = do_cfg servers "sub" "scope"

abbrev pub cfg_port : List Server → String
cfg_port servers = do_cfg servers "389" "port"

abbrev pub cfg_timeout : List Server → String
cfg_timeout servers = do_cfg servers "5" "search_timeout"

abbrev pub cfg_bind_timeout : List Server → String
cfg_bind_timeout servers = do_cfg servers "5" "bind_timeout"

-- `is_ipv6` tells the texts that `ipaddress` takes for an IPv6 address.
abbrev pub host_of : Bool → String → String
host_of true ip = "[" <> (ip <> "]")
host_of false ip = ip

unfoldable pub uris : (String → Bool) → String → List Server → String → String
uris is_ipv6 port [] text = text
uris is_ipv6 port (server ∷ servers) text =
    let ip = get "" "ip" (lookup "ip" server) in
    uris is_ipv6 port servers
      (text <> ("ldap://" <> (host_of (is_ipv6 ip) ip <> (":" <> (port <> "/ ")))))

abbrev pub cfg_servers : (String → Bool) → List Server → String
cfg_servers is_ipv6 [] = ""
cfg_servers is_ipv6 (server ∷ servers) =
    uris is_ipv6 (cfg_port (server ∷ servers)) (server ∷ servers) "uri "
