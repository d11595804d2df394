-- ===== src/Cacl/Blocked/Subnets.antt =====
-- Every interface with a prefix gets one drop, for one address of its own subnet.
use sonic_host_services.Base.{
  inr, ==_iff, ◌⊎◌, inl, map, ℕ, suc, Bool, true, false, Option, none, some, List, [], ◌∷◌, ◌++◌,
  ◌-◌, ◌+◌, ◌*◌, ◌/◌, ◌%◌, ◌<◌, ◌==◌, leb, ◌≡◌, refl, subst, sym, ap, All, arith, String, by_test,
  leb→le,
}
use native.Mathlib.Nat.{mod-lt, one-le-pow}
use native.Mathlib.Omega.{div_any}
use sonic_host_services.Cacl.{Command}
use sonic_host_services.Cacl.Blocked.{
  Cidr, size, network_address, first_host, blocked_address, drop_command, block_table,
  max_prefixlen, Interfaces, generate_block_ip2me_traffic_iptables_commands,
}

-- The address is that of the interface with the host part `other` in place of its own.
pub record InSubnet (c : Cidr) (other ip : ℕ) : Type 0 where
  pub network : ℕ
  pub own : ℕ
  pub own_address : c.address ≡ size c * network + own
  pub own_fits : own < size c
  pub is_address : ip ≡ size c * network + other
  pub fits : other < size c

size-positive : (c : Cidr) → 0 < size c
size-positive c = one-le-pow (max_prefixlen c.family - c.prefix_len) 2 (omega arith)

network-InSubnet : (c : Cidr) → InSubnet c 0 (network_address c)
network-InSubnet c = record {
  network = c.address / size c;
  own = c.address % size c;
  own_address = omega (arith, div_any c.address (size c));
  own_fits = mod-lt c.address (size-positive c);
  is_address = omega (arith, div_any c.address (size c));
  fits = size-positive c;
}

next-InSubnet : (c : Cidr) → 1 < size c → InSubnet c 1 (suc (network_address c))
next-InSubnet c h = record {
  network = c.address / size c;
  own = c.address % size c;
  own_address = omega (arith, div_any c.address (size c));
  own_fits = mod-lt c.address (size-positive c);
  is_address = omega (arith, div_any c.address (size c));
  fits = h;
}

-- There is a result, and it satisfies `Q`.
abbrev pub Gives : {A : Type 0} → (A → Type 0) → Option A → Type 0
Gives {A} Q o = (a : A) × ((o ≡ some a) × Q a)

-- The host part of the address to block: 0, the network's own address, but for a VLAN 1, unless its
-- network has two addresses only.
abbrev pub Blocks : Bool → Cidr → ℕ → Type 0
Blocks false c ip = InSubnet c 0 ip
Blocks true c ip = ((size c ≡ 2) × InSubnet c 0 ip) ⊎ ((2 < size c) × InSubnet c 1 ip)

first_host-Gives : (c : Cidr) → 1 < size c → Gives (Blocks true c) (first_host c)
first_host-Gives c h =
    by_test (Gives (Blocks true c)) (leb (size c) 1) none _
      (λ e. absurd (omega (arith, h, leb→le (size c) 1 e)))
      (λ e.
        by_test (Gives (Blocks true c)) (size c == 2) (some (network_address c))
          (some (suc (network_address c)))
          (λ f. (network_address c, (refl, inl ((==_iff (size c) 2).0 f, network-InSubnet c))))
          (λ f. (
            suc (network_address c),
            (refl, inr (ground (arith, ==_iff (size c) 2), next-InSubnet c h)),
          )))

-- A network of a VLAN has more than one address.
abbrev pub Fits : Bool → Option Cidr → Type 0
Fits is_vlan none = Unit
Fits false (some c) = Unit
Fits true (some c) = 1 < size c

blocked-Gives :
    (is_vlan : Bool) (c : Cidr)
    → Fits is_vlan (some c)
    → Gives (Blocks is_vlan c) (blocked_address is_vlan c)
unfolding blocked_address
blocked-Gives true c h = first_host-Gives c h
blocked-Gives false c h = (network_address c, (refl, network-InSubnet c))

-- The commands are one drop for each key with a prefix, of a table of VLANs or not, for the address
-- to block.
abbrev pub Drops : String → List (Bool × Option Cidr) → List Command → Type 0
Drops ns [] cmds = cmds ≡ []
Drops ns ((is_vlan, none) ∷ keys) cmds = Drops ns keys cmds
Drops ns ((is_vlan, some c) ∷ keys) cmds =
    (ip : ℕ) × (Blocks is_vlan c ip
      × ((rest : List Command) × ((cmds ≡ drop_command ns c.family ip ∷ rest)
            × Drops ns keys rest)))

Drops-append :
    (ns : String) (ks js : List (Bool × Option Cidr)) (a b : List Command)
    → Drops ns ks a
    → Drops ns js b
    → Drops ns (ks ++ js) (a ++ b)
Drops-append ns [] js a b h k = subst (λ x. Drops ns js (x ++ b)) (sym h) k
Drops-append ns ((is_vlan, none) ∷ ks) js a b h k = Drops-append ns ks js a b h k
Drops-append ns ((is_vlan, some c) ∷ ks) js a b h k = (
  h.0,
  (
    h.1.0,
    (h.1.1.0 ++ b, (ap (λ x. x ++ b) h.1.1.1.0, Drops-append ns ks js h.1.1.0 b h.1.1.1.1 k)),
  ),
)

-- The keys of a table with whether it is VLAN_INTERFACE.
abbrev pub table : Bool → List (Option Cidr) → List (Bool × Option Cidr)
table is_vlan keys = map (λ key. (is_vlan, key)) keys

block_table-Gives :
    (ns : String) (is_vlan : Bool) (keys : List (Option Cidr))
    → All (Fits is_vlan) keys
    → Gives (Drops ns (table is_vlan keys)) (block_table ns is_vlan keys)
unfolding block_table
block_table-Gives ns is_vlan [] h = ([], (refl, refl))
block_table-Gives ns is_vlan (none ∷ keys) h = block_table-Gives ns is_vlan keys h.1
block_table-Gives ns is_vlan (some c ∷ keys) h =
    let ip = blocked-Gives is_vlan c h.0 in
    let rest = block_table-Gives ns is_vlan keys h.1 in
    (
      drop_command ns c.family ip.0 ∷ rest.0,
      (rw (ip.1.0, rest.1.0) refl, (ip.0, (ip.1.1, (rest.0, (refl, rest.1.1))))),
    )

abbrev pub all_keys : Interfaces → List (Bool × Option Cidr)
all_keys i =
    table false i.loopback_interface
    ++ table true i.vlan_interface
    ++ table false i.portchannel_interface
    ++ table false i.interface

always-Fits : (keys : List (Option Cidr)) → All (Fits false) keys
always-Fits [] = tt
always-Fits (none ∷ keys) = (tt, always-Fits keys)
always-Fits (some c ∷ keys) = (tt, always-Fits keys)

-- If no VLAN has a network of one address, nothing raises, and for every key with a prefix of the
-- four tables, in their order, there is one command, which drops the packets to the address of the
-- network of that interface; for a VLAN with more than two addresses to the address after it.
pub generate_block-Drops :
    (ns : String) (i : Interfaces)
    → All (Fits true) i.vlan_interface
    → Gives (Drops ns (all_keys i)) (generate_block_ip2me_traffic_iptables_commands ns i)
unfolding generate_block_ip2me_traffic_iptables_commands
generate_block-Drops ns i h =
    let a = block_table-Gives ns false i.loopback_interface (always-Fits i.loopback_interface) in
    let b = block_table-Gives ns true i.vlan_interface h in
    let c =
      block_table-Gives ns false i.portchannel_interface (always-Fits i.portchannel_interface) in
    let d = block_table-Gives ns false i.interface (always-Fits i.interface) in
    (
      a.0 ++ b.0 ++ c.0 ++ d.0,
      (
        rw (a.1.0, b.1.0, c.1.0, d.1.0) refl,
        Drops-append ns
            (table false i.loopback_interface
              ++ table true i.vlan_interface
              ++ table false i.portchannel_interface)
            (table false i.interface) (a.0 ++ b.0 ++ c.0) d.0
            (Drops-append ns (table false i.loopback_interface ++ table true i.vlan_interface)
              (table false i.portchannel_interface) (a.0 ++ b.0) c.0
              (Drops-append ns (table false i.loopback_interface) (table true i.vlan_interface) a.0
                b.0 a.1.1 b.1.1)
              c.1.1)
            d.1.1,
      ),
    )
