-- ===== src/Featured/Units.antt =====
-- The services of a feature, and the commands that start, stop and configure them.
pub mod Keeps
use sonic_host_services.Base.{
  ℕ, zero, suc, Bool, true, false, not, ◌&&◌, ◌||◌, List, [], ◌∷◌, ◌++◌, String, str_eq, map,
  if◌then◌else◌,
}
use sonic_host_services.Base.Dict
use sonic_host_services.Base.Text.{codes, occurs}
use sonic_host_services.Featured.{
  Feature, Instance, host, asic, dpu, Unit_, UnitState, unit_enabled, unit_disabled, unit_masked,
  unmask, enable, start, stop, disable, mask, Command, systemctl, daemon_reload, Report, is_enabled,
  is_disabled, is_failed, FeatureHandler, Device,
}

-- `range(n)`
unfoldable pub range : ℕ → List ℕ
range zero = []
range (suc n) = range n ++ n ∷ []

abbrev pub unit_of : String → Instance → Unit_
unit_of name i = record { feature = name; instance_ = i }

abbrev pub units_if : Bool → String → List Instance → List Unit_
units_if b name is_ = if b then map (unit_of name) is_ else []

abbrev pub is_found_enabled : UnitState → Bool
is_found_enabled unit_enabled = true
is_found_enabled _ = false

abbrev pub is_found_disabled : UnitState → Bool
is_found_disabled unit_disabled = true
is_found_disabled unit_masked = true
is_found_disabled _ = false

-- FEATURE_EXCLUSION_LIST; names are in lower case.
abbrev pub is_exclusion_listed : String → Bool
is_exclusion_listed feature_name = str_eq feature_name "telemetry" || str_eq feature_name "frr_bmp"

unfoldable pub set_feature_state : String → Report → FeatureHandler → FeatureHandler
set_feature_state name report h = record h {
  feature_state_tables = map (Dict.insert name report) h.feature_state_tables;
}

abbrev pub is_dependent_service : String → Bool
is_dependent_service name = str_eq name "syncd" || str_eq name "gbsyncd"

module _ (dev : Device) where
  unfoldable pub instances : Bool → Feature → List Unit_
  instances all_instance f =
      units_if (f.has_global_scope || all_instance || not dev.is_multi_npu) f.name (host ∷ [])
      ++ (units_if (dev.is_multi_npu && (all_instance || f.has_per_asic_scope)) f.name
            (map asic (range dev.num_npus))
          ++ units_if (all_instance || f.has_per_dpu_scope) f.name (map dpu (range dev.num_dpus)))

  -- `run_cmd`: the state after the command, and whether it ended with code 0.
  unfoldable pub run_cmd : Command → FeatureHandler → FeatureHandler × Bool
  run_cmd c h = (record h { log = c ∷ h.log }, dev.runs h.log c)

  -- The commands for one service; the error of `enable` is ignored.
  unfoldable pub enable_unit : Unit_ → FeatureHandler → FeatureHandler × Bool
  unfolding run_cmd
  enable_unit u h =
      let (h1, unmasked) = run_cmd (systemctl unmask u) h in
      let h2 = (run_cmd (systemctl enable u) h1).0 in
      let started = run_cmd (systemctl start u) h2 in
      if is_found_enabled (dev.unit_state h.log u)
      then (h, true)
      else if unmasked
      then started
      else (h1, false)

  -- The three commands, of which each has to succeed.
  unfoldable pub stop_unit : Unit_ → FeatureHandler → FeatureHandler × Bool
  unfolding run_cmd
  stop_unit u h =
      let (h1, stopped) = run_cmd (systemctl stop u) h in
      let (h2, disabled) = run_cmd (systemctl disable u) h1 in
      let masked = run_cmd (systemctl mask u) h2 in
      if stopped then (if disabled then masked else (h2, false)) else (h1, false)

  -- The wait for a service that is being activated only delays the stop.
  unfoldable pub disable_unit : Unit_ → FeatureHandler → FeatureHandler × Bool
  unfolding stop_unit
  disable_unit u h = if is_found_disabled (dev.unit_state h.log u) then (h, true) else stop_unit u h

  unfoldable pub enable_units : String → List Unit_ → FeatureHandler → FeatureHandler × Bool
  enable_units name [] h = (set_feature_state name is_enabled h, true)
  enable_units name (u ∷ us) h =
      let (h1, done) = enable_unit u h in
      let rest = enable_units name us h1 in
      if done then rest else (set_feature_state name is_failed h1, false)

  unfoldable pub disable_units : String → List Unit_ → FeatureHandler → FeatureHandler × Bool
  disable_units name [] h = (set_feature_state name is_disabled h, true)
  disable_units name (u ∷ us) h =
      let (h1, done) = disable_unit u h in
      let rest = disable_units name us h1 in
      if done then rest else (set_feature_state name is_failed h1, false)

  -- A feature that is listed for exclusion gives None, which is taken for False.
  unfoldable pub enable_feature : Feature → FeatureHandler → FeatureHandler × Bool
  enable_feature f h =
      if is_exclusion_listed f.name then (h, false) else enable_units f.name (instances false f) h

  unfoldable pub disable_feature : Feature → FeatureHandler → FeatureHandler × Bool
  disable_feature f h =
      if is_exclusion_listed f.name then (h, false) else disable_units f.name (instances false f) h

  -- Whether `Restart=` is "always".
  abbrev pub restarts : Feature → Bool
  restarts f =
      if dev.is_spine_router && is_dependent_service f.name
      then false
      else occurs (codes "enabled") f.auto_restart

  -- The files that are written, by their services, the last one first.
  abbrev pub write_restart : Bool → List Unit_ → List (Unit_ × Bool) → List (Unit_ × Bool)
  write_restart b [] files = files
  write_restart b (u ∷ us) files = write_restart b us ((u, b) ∷ files)

  unfoldable pub update_systemd_config : Feature → FeatureHandler → FeatureHandler
  unfolding run_cmd
  update_systemd_config f h =
      (run_cmd daemon_reload (record h {
        restart_fields = write_restart (restarts f) (instances false f) h.restart_fields;
      })).0
