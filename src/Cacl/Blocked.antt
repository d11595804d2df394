-- ===== src/Cacl/Blocked.antt =====
-- generate_block_ip2me_traffic_iptables_commands of scripts/caclmgrd: the addresses of the
-- interfaces that packets are dropped for.
pub mod Subnets
use sonic_host_services.Base.{
  ℕ, suc, Bool, true, false, Option, none, some, List, [], ◌∷◌, ◌++◌, ◌-◌, ◌+◌, ◌%◌, ◌^◌, ◌==◌, leb,
  String, if◌then◌else◌, ◌>>=◌,
}
use sonic_host_services.Cacl.{Word, host, words, Command, Family, ipv4, ipv6, iptables, ns_prefix}

-- The address of an interface as a number, with the length of its prefix.
pub record Cidr : Type 0 where
  pub family : Family
  pub address : ℕ
  pub prefix_len : ℕ

abbrev pub max_prefixlen : Family → ℕ
max_prefixlen ipv4 = 32
max_prefixlen ipv6 = 128

-- The number of addresses of the network.
abbrev pub size : Cidr → ℕ
size c = 2 ^ (max_prefixlen c.family - c.prefix_len)

-- `ip_network(cidr, strict=False).network_address`
abbrev pub network_address : Cidr → ℕ
network_address c = c.address - c.address % size c

-- `next(ip_ntwrk.hosts())`: a network of two addresses has both as hosts; that of one address gives
-- a list, of which `next` raises.
abbrev pub first_host : Cidr → Option ℕ
first_host c =
    if leb (size c) 1
    then none
    else if size c == 2
    then some (network_address c)
    else some (suc (network_address c))

-- In VLAN_INTERFACE the address to block is the first host.
unfoldable pub blocked_address : Bool → Cidr → Option ℕ
blocked_address is_vlan c = if is_vlan then first_host c else some (network_address c)

abbrev pub drop_command : String → Family → ℕ → Command
drop_command ns family ip =
    ns_prefix ns
    ++ words (iptables family ∷ "-A" ∷ "INPUT" ∷ "-d" ∷ [])
    ++ host family ip ∷ words ("-j" ∷ "DROP" ∷ [])

-- The keys of an interface table; one without a prefix is passed over.
unfoldable pub block_table : String → Bool → List (Option Cidr) → Option (List Command)
block_table ns is_vlan [] = some []
block_table ns is_vlan (none ∷ keys) = block_table ns is_vlan keys
block_table ns is_vlan (some c ∷ keys) = do
  ip ← blocked_address is_vlan c
  rest ← block_table ns is_vlan keys
  some (drop_command ns c.family ip ∷ rest)

-- The keys of the four tables.
pub record Interfaces : Type 0 where
  pub loopback_interface : List (Option Cidr)
  pub vlan_interface : List (Option Cidr)
  pub portchannel_interface : List (Option Cidr)
  pub interface : List (Option Cidr)

unfoldable pub generate_block_ip2me_traffic_iptables_commands :
    String → Interfaces → Option (List Command)
generate_block_ip2me_traffic_iptables_commands ns i = do
  loopbacks ← block_table ns false i.loopback_interface
  vlans ← block_table ns true i.vlan_interface
  portchannels ← block_table ns false i.portchannel_interface
  interfaces ← block_table ns false i.interface
  some (loopbacks ++ vlans ++ portchannels ++ interfaces)
