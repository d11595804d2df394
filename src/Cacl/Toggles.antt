-- ===== src/Cacl/Toggles.antt =====
-- The services of scripts/caclmgrd that messages open and close: the port of a VXLAN tunnel
-- (allow_vxlan_port, block_vxlan_port) and the REDFISH service (handle_redfish_feature_events).
pub mod Follow
use sonic_host_services.Base.{
  Bool, true, false, Option, none, some, List, [], ◌∷◌, ◌++◌, String, str_eq, ◌&&◌, if◌then◌else◌,
}
use sonic_host_services.Cacl.{Family}

abbrev pub Address : Type 0
Address = Family × String

-- VxlanAllowed and VxlanSrcIP
pub record Vxlan : Type 0 where
  pub vxlan_allowed : Bool
  pub vxlan_src_ip : Option Address

-- A message of VXLAN_TUNNEL: SET with its `src_ip` if it has one, which is none if
-- the text is empty, or DEL.
pub data TunnelMessage : Type 0 where
  set_tunnel : Option (Option Address) → TunnelMessage
  del_tunnel : TunnelMessage

-- The rule that a command inserts or deletes.
pub data Action : Type 0 where
  opens : Address → Action
  closes : Address → Action

pub record Outcome : Type 0 where
  pub actions : List Action
  pub state : Vxlan

abbrev outcome : List Action → Bool → Option Address → Outcome
outcome actions allowed src = record {
  actions = actions;
  state = record { vxlan_allowed = allowed; vxlan_src_ip = src };
}

-- The address of the message, or else the one that is kept.
abbrev pub or_kept : Option (Option Address) → Option Address → Option Address
or_kept none kept = kept
or_kept (some src) kept = src

abbrev pub allow_vxlan_port : Option Address → Outcome
allow_vxlan_port none = outcome [] false none
allow_vxlan_port (some a) = outcome (opens a ∷ []) true (some a)

abbrev pub block_vxlan_port : Option Address → Outcome
block_vxlan_port none = outcome [] true none
block_vxlan_port (some a) = outcome (closes a ∷ []) false none

abbrev pub on_tunnel : TunnelMessage → Bool → Option Address → Outcome
on_tunnel (set_tunnel src) true kept = outcome [] true kept
on_tunnel (set_tunnel src) false kept = allow_vxlan_port (or_kept src kept)
on_tunnel del_tunnel true kept = block_vxlan_port kept
on_tunnel del_tunnel false kept = outcome [] false kept

unfoldable pub on_tunnels : List TunnelMessage → Vxlan → Outcome
on_tunnels [] v = record { actions = []; state = v }
on_tunnels (m ∷ messages) v =
    let now = on_tunnel m v.vxlan_allowed v.vxlan_src_ip in
    let later = on_tunnels messages now.state in
    record { actions = now.actions ++ later.actions; state = later.state }

-- An entry of the FEATURE table that changed: its key, whether it is set, and its `state`.
pub record FeatureEvent : Type 0 where
  pub key : String
  pub is_set : Bool
  pub state : Option String

abbrev is_enabled : Option String → Bool
is_enabled none = false
is_enabled (some s) = str_eq s "enabled"

abbrev pub new_state : FeatureEvent → Bool
new_state e = e.is_set && is_enabled e.state

-- RedfishAllowed, and whether the ACLs of the namespace are to be walked again.
pub record Redfish : Type 0 where
  pub redfish_allowed : Bool
  pub is_notified : Bool

abbrev pub same_bool : Bool → Bool → Bool
same_bool true b = b
same_bool false true = false
same_bool false false = true

abbrev pub redfish_to : Bool → Redfish → Redfish
redfish_to new_state r =
    if same_bool new_state r.redfish_allowed
    then r
    else record { redfish_allowed = new_state; is_notified = true }

abbrev pub redfish_event : FeatureEvent → Redfish → Redfish
redfish_event e r = if str_eq e.key "redfish" then redfish_to (new_state e) r else r

unfoldable pub handle_redfish_feature_events : List FeatureEvent → Redfish → Redfish
handle_redfish_feature_events [] r = r
handle_redfish_feature_events (e ∷ events) r =
    handle_redfish_feature_events events (redfish_event e r)
