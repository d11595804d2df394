-- ===== src/Featured/Handler.antt =====
-- `FeatureHandler`: the updates of features, and the messages that bring them.
pub mod Transitions
pub mod Walk
pub mod UpDown
pub mod Quiet
pub mod PutOff
use sonic_host_services.Base.{
  ℕ, Bool, true, false, not, ◌&&◌, ◌||◌, Option, none, some, List, [], ◌∷◌, String, str_eq, map,
  if◌then◌else◌,
}
use sonic_host_services.Base.Dict
use sonic_host_services.Base.Text.{text_eq}
use sonic_host_services.Featured.{
  State, enabled, disabled, always_enabled, always_disabled, Feature, unconfigured, Instance, host,
  asic, dpu, Unit_, UnitState, no_state, unit_masked, unit_enabled, unit_disabled, other_state, Db,
  FeatureHandler, Device, is_failed,
}
use sonic_host_services.Featured.Units.{
  instances, enable_feature, disable_feature, update_systemd_config, stop_unit, set_feature_state,
}
use sonic_host_services.Featured.Tables.{
  delete_entry, resync_feature_state, sync_scope_fields, sync_feature_delay_state,
}

abbrev pub cached_or : String → Option Feature → Feature
cached_or name none = unconfigured name
cached_or name (some f) = f

-- `self._cached_config[name]`, after the default is put in.
abbrev pub cached : String → FeatureHandler → Feature
cached name h = cached_or name (Dict.lookup name h.cached_config)

abbrev pub put_cached : String → Feature → FeatureHandler → FeatureHandler
put_cached name f h = record h { cached_config = Dict.insert name f h.cached_config }

pub data Wanted : Type 0 where
  enabling disabling neither : Wanted

-- The allowed transitions from the cached state to the new one.
unfoldable pub wanted : Option State → Option State → Wanted
wanted none (some enabled) = enabling
wanted none (some always_enabled) = enabling
wanted none (some disabled) = disabling
wanted none (some always_disabled) = disabling
wanted (some always_enabled) (some always_enabled) = enabling
wanted (some always_enabled) (some always_disabled) = disabling
wanted (some always_disabled) (some always_enabled) = enabling
wanted (some always_disabled) (some always_disabled) = disabling
wanted (some enabled) (some enabled) = enabling
wanted (some enabled) (some disabled) = disabling
wanted (some disabled) (some enabled) = enabling
wanted (some disabled) (some disabled) = disabling
wanted _ _ = neither

abbrev pub is_neither : Wanted → Bool
is_neither neither = true
is_neither _ = false

abbrev pub state_differs : Option State → Option State → Bool
state_differs none none = false
state_differs (some enabled) (some enabled) = false
state_differs (some disabled) (some disabled) = false
state_differs (some always_enabled) (some always_enabled) = false
state_differs (some always_disabled) (some always_disabled) = false
state_differs _ _ = true

abbrev pub is_named_instance : Instance → Bool
is_named_instance host = false
is_named_instance _ = true

abbrev pub is_masked : UnitState → Bool
is_masked unit_masked = true
is_masked _ = false

abbrev pub is_known : UnitState → Bool
is_known no_state = false
is_known _ = true

-- Whether the service is out of the feature's scope.
abbrev pub is_out_of_scope : Feature → Instance → Bool
is_out_of_scope f i =
    not f.has_per_asic_scope && is_named_instance i
    || not f.has_global_scope && not (is_named_instance i)

-- What reaches the daemon: a change of the FEATURE table, a change of the port table with its key
-- and operation, or the end of the time for the ports. `invalid` is a configuration that `Feature`
-- refuses with an exception, which ends the daemon.
pub data Message : Type 0 where
  configured : Feature → Message
  deleted : String → Message
  port : String → String → Message
  invalid port_table_timeout : Message

abbrev pub is_invalid : Message → Bool
is_invalid invalid = true
is_invalid _ = false

module _ (dev : Device) where
  abbrev pub act : Wanted → Feature → FeatureHandler → FeatureHandler × Bool
  act enabling f h = enable_feature dev f h
  act disabling f h = disable_feature dev f h
  act neither f h = (h, false)

  unfoldable pub update_feature_state : Feature → FeatureHandler → FeatureHandler × Bool
  update_feature_state f h =
      let w = wanted (cached f.name h).state f.state in
      if is_neither w
      then (h, false)
      else if f.delayed && not h.is_delayed_enabled
      then (h, true)
      else act w f h

  -- Whether a service is stopped because it is out of the feature's scope.
  unfoldable pub leaves_scope : Feature → Unit_ → FeatureHandler → Bool
  leaves_scope f u h =
      let unit_file_state = dev.unit_state h.log u in
      is_known unit_file_state
      && dev.is_multi_npu
      && not (is_masked unit_file_state)
      && is_out_of_scope f u.instance_

  -- The services out of scope; the second part says whether all commands succeeded.
  unfoldable pub sync_scope_units : Feature → List Unit_ → FeatureHandler → FeatureHandler × Bool
  sync_scope_units f [] h = (h, true)
  sync_scope_units f (u ∷ us) h =
      let stops = leaves_scope f u h in
      let (h1, done) = stop_unit dev u h in
      let rest = sync_scope_units f us (if stops then h1 else h) in
      if stops && not done then (set_feature_state f.name is_failed h1, false) else rest

  unfoldable pub sync_feature_scope : Feature → FeatureHandler → FeatureHandler
  sync_feature_scope f h =
      let (h1, done) = sync_scope_units f (instances dev true f) h in
      if done then sync_scope_fields f h1 else h1

  -- The change of the restart field, if there is one.
  unfoldable pub update_auto_restart : Feature → FeatureHandler → FeatureHandler
  update_auto_restart f h =
      let c = cached f.name h in
      if text_eq c.auto_restart f.auto_restart
      then h
      else put_cached f.name (record c { auto_restart = f.auto_restart })
          (update_systemd_config dev f h)

  -- What follows an update of the state.
  abbrev pub after_update : Feature → FeatureHandler × Bool → FeatureHandler
  after_update f (h, true) = put_cached f.name f (resync_feature_state f (sync_feature_scope f h))
  after_update f (h, false) = resync_feature_state (cached f.name h) h

  -- `handler` with the configuration of a feature.
  unfoldable pub configure : Feature → FeatureHandler → FeatureHandler
  configure f h =
      let h1 = update_auto_restart f (put_cached f.name (cached f.name h) h) in
      if state_differs (cached f.name h1).state f.state
      then after_update f (update_feature_state f h1)
      else h1

  -- `handler` without one. The entry in the host's CONFIG_DB is gone already.
  unfoldable pub deregister : String → FeatureHandler → FeatureHandler
  deregister name h = record h {
    cached_config = Dict.erase name h.cached_config;
    feature_state_tables = map (Dict.erase name) h.feature_state_tables;
    ns_cfg_db = map (delete_entry name) h.ns_cfg_db;
  }

  -- The loop of enable_delayed_services over the cached features.
  unfoldable pub update_delayed : List (String × Feature) → FeatureHandler → FeatureHandler
  update_delayed [] h = h
  update_delayed ((name, f) ∷ features) h =
      update_delayed features (if f.delayed then (update_feature_state f h).0 else h)

  unfoldable pub enable_delayed_services : FeatureHandler → FeatureHandler
  enable_delayed_services h =
      update_delayed h.cached_config (record h { is_delayed_enabled = true })

  unfoldable pub handle_adv_boot : Bool → FeatureHandler → FeatureHandler
  handle_adv_boot is_advanced_boot h = if is_advanced_boot then enable_delayed_services h else h

  unfoldable pub handle_port_table_timeout : FeatureHandler → FeatureHandler
  handle_port_table_timeout h = if h.is_delayed_enabled then h else enable_delayed_services h

  unfoldable pub port_listener : String → String → FeatureHandler → FeatureHandler
  port_listener key op h =
      if str_eq op "SET" && str_eq key "PortInitDone" then enable_delayed_services h else h

  abbrev pub default_cached : Feature → Option Feature → FeatureHandler → FeatureHandler
  default_cached f none h = put_cached f.name f h
  default_cached f (some c) h = h

  -- One feature of `sync_state_field`.
  unfoldable pub sync_feature : Feature → FeatureHandler → FeatureHandler
  sync_feature f h =
      let h1 =
        update_systemd_config dev f (default_cached f (Dict.lookup f.name h.cached_config) h) in
      let h2 = sync_feature_scope f (update_feature_state f h1).0 in
      sync_feature_delay_state f (resync_feature_state f h2)

  unfoldable pub sync_state_field : List Feature → FeatureHandler → FeatureHandler
  sync_state_field [] h = h
  sync_state_field (f ∷ features) h =
      sync_state_field features (if str_eq f.name "" then h else sync_feature f h)

  unfoldable pub receive : Message → FeatureHandler → FeatureHandler
  receive (configured f) h = configure f h
  receive (deleted name) h = deregister name h
  receive invalid h = h
  receive (port key op) h = port_listener key op h
  receive port_table_timeout h = handle_port_table_timeout h

  unfoldable pub run : List Message → FeatureHandler → FeatureHandler
  run [] h = h
  run (m ∷ messages) h = let rest = run messages (receive m h) in if is_invalid m then h else rest
