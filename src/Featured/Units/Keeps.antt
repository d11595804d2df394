-- ===== src/Featured/Units/Keeps.antt =====
-- What starting and stopping services leaves alone: all but the log and the table of states.
use sonic_host_services.Base.{false, List, [], ◌∷◌, String, ◌≡◌, arith}
use sonic_host_services.Featured.{Feature, Unit_, FeatureHandler, Device}
use sonic_host_services.Featured.Units.{
  enable_unit, disable_unit, stop_unit, enable_units, disable_units, enable_feature,
  disable_feature, set_feature_state, update_systemd_config, instances,
}

-- Two states of the handler that agree on what it decides by and on the configurations.
pub record Agrees (g h : FeatureHandler) : Type 0 where
  pub cached_config : g.cached_config ≡ h.cached_config
  pub is_delayed_enabled : g.is_delayed_enabled ≡ h.is_delayed_enabled
  pub config_db : g.config_db ≡ h.config_db
  pub ns_cfg_db : g.ns_cfg_db ≡ h.ns_cfg_db

pub Agrees-refl : (h : FeatureHandler) → Agrees h h
Agrees-refl h = ground arith

pub Agrees-trans : {f g h : FeatureHandler} → Agrees f g → Agrees g h → Agrees f h
Agrees-trans a b = ground arith

module _ (dev : Device) where
  enable_unit-Agrees : (u : Unit_) (h : FeatureHandler) → Agrees (enable_unit dev u h).0 h
  unfolding enable_unit
  enable_unit-Agrees u h = ground arith

  pub stop_unit-Agrees : (u : Unit_) (h : FeatureHandler) → Agrees (stop_unit dev u h).0 h
  unfolding stop_unit
  stop_unit-Agrees u h = ground arith

  disable_unit-Agrees : (u : Unit_) (h : FeatureHandler) → Agrees (disable_unit dev u h).0 h
  unfolding disable_unit
  disable_unit-Agrees u h = ground (arith, stop_unit-Agrees u h)

  enable_units-Agrees :
      (name : String) (us : List Unit_) (h : FeatureHandler)
      → Agrees (enable_units dev name us h).0 h
  unfolding enable_units set_feature_state
  enable_units-Agrees name [] h = ground arith
  enable_units-Agrees name (u ∷ us) h =
      ground (arith, enable_unit-Agrees u h, enable_units-Agrees name us (enable_unit dev u h).0)

  disable_units-Agrees :
      (name : String) (us : List Unit_) (h : FeatureHandler)
      → Agrees (disable_units dev name us h).0 h
  unfolding disable_units set_feature_state
  disable_units-Agrees name [] h = ground arith
  disable_units-Agrees name (u ∷ us) h =
      ground (arith, disable_unit-Agrees u h, disable_units-Agrees name us (disable_unit dev u h).0)

  pub enable_feature-Agrees :
      (f : Feature) (h : FeatureHandler) → Agrees (enable_feature dev f h).0 h
  unfolding enable_feature
  enable_feature-Agrees f h = ground (arith, enable_units-Agrees f.name (instances dev false f) h)

  pub disable_feature-Agrees :
      (f : Feature) (h : FeatureHandler) → Agrees (disable_feature dev f h).0 h
  unfolding disable_feature
  disable_feature-Agrees f h = ground (arith, disable_units-Agrees f.name (instances dev false f) h)

  pub update_systemd_config-Agrees :
      (f : Feature) (h : FeatureHandler) → Agrees (update_systemd_config dev f h) h
  unfolding update_systemd_config
  update_systemd_config-Agrees f h = ground arith
