-- ===== src/Tests/Featured.antt =====
-- scripts/featured at concrete inputs.
use sonic_host_services.Base.Text.{text_eq}
use sonic_host_services.Base.{◌≡◌, refl, true, false, some, none, [], ◌∷◌}
use sonic_host_services.Base.Dict.{lookup, insert}
use sonic_host_services.Featured.{
  State, enabled, disabled, always_enabled, Feature, unconfigured, host, other_state, start, enable,
  unmask, systemctl, FeatureHandler, Device,
}
use sonic_host_services.Featured.Units.{
  range, instances, unit_of, run_cmd, enable_unit, enable_units, enable_feature, disable_feature,
  disable_units, disable_unit, stop_unit, update_systemd_config, set_feature_state,
}
use sonic_host_services.Featured.Tables.{resync_feature_state, sync_scope_fields}
use sonic_host_services.Featured.Handler.{
  wanted, update_feature_state, leaves_scope, sync_scope_units, sync_feature_scope,
  update_auto_restart, configure, receive, run, configured, deleted,
}
use sonic_host_services.Featured.Handler.Transitions.{life}
use sonic_host_services.Featured.Handler.Walk.{Life, run-Life}
use sonic_host_services.Featured.Handler.Quiet.{Refused, configure-Refused}

abbrev device : Device
device = record {
  is_multi_npu = false;
  num_npus = 1;
  num_dpus = 0;
  is_spine_router = false;
  unit_state = λ log u. other_state;
  runs = λ log c. true;
}

abbrev snmp : State → Feature
snmp s = record (unconfigured "snmp") { state = some s }

abbrev empty : FeatureHandler
empty = record {
  cached_config = [];
  is_delayed_enabled = false;
  config_db = record { entries = []; writes = 0 };
  ns_cfg_db = [];
  feature_state_tables = [] ∷ [];
  restart_fields = [];
  log = [];
}

-- The daemon with the feature cached in a state.
abbrev holding : State → FeatureHandler
holding s = record empty { cached_config = ("snmp", snmp s) ∷ [] }

enabled_log :
    (update_feature_state device (snmp enabled) empty).0.log
    ≡ systemctl start (unit_of "snmp" host)
      ∷ systemctl enable (unit_of "snmp" host)
      ∷ systemctl unmask (unit_of "snmp" host)
      ∷ []
unfolding update_feature_state enable_feature enable_units enable_unit set_feature_state instances
    range wanted run_cmd lookup insert
enabled_log = refl

walked :
    life "snmp" (run device (configured (snmp enabled) ∷ configured (snmp disabled) ∷ []) empty)
    ≡ some disabled
unfolding run receive configure update_auto_restart update_systemd_config run_cmd
    update_feature_state sync_feature_scope sync_scope_units sync_scope_fields resync_feature_state
    leaves_scope enable_feature enable_units enable_unit disable_feature disable_units disable_unit
    stop_unit set_feature_state instances range wanted lookup insert text_eq
walked = refl

run-Life_example :
    Life "snmp"
      (configured (snmp enabled) ∷ deleted "snmp" ∷ [])
      none
      (life "snmp" (run device (configured (snmp enabled) ∷ deleted "snmp" ∷ []) empty))
unfolding lookup
run-Life_example = run-Life device "snmp" (configured (snmp enabled) ∷ deleted "snmp" ∷ []) empty

configure-Refused_example :
    Refused "snmp" always_enabled
      (holding always_enabled)
      (configure device (snmp disabled) (holding always_enabled))
unfolding lookup
configure-Refused_example =
    configure-Refused device (snmp disabled) always_enabled (holding always_enabled) refl refl refl
      refl
