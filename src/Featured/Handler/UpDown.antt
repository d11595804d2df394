-- ===== src/Featured/Handler/UpDown.antt =====
-- What a successful update leaves behind: the services of the feature are up, or they are down.
use sonic_host_services.Base.{
  eq_iff, Bool, true, false, not, ◌&&◌, some, List, [], ◌∷◌, String, ◌≡◌, refl, ◌∙◌, ap, sym, subst,
  arith, if◌then◌else◌, All, map,
}
use sonic_host_services.Base.Dict.{lookup, insert, lookup-insert}
use sonic_host_services.Featured.{
  Feature, Unit_, unmask, enable, start, stop, disable, mask, Command, systemctl, Report,
  is_enabled, is_disabled, is_failed, FeatureHandler, Device,
}
use sonic_host_services.Featured.Units.{
  is_found_enabled, is_found_disabled, is_exclusion_listed, enable_unit, disable_unit, stop_unit,
  enable_units, disable_units, enable_feature, disable_feature, set_feature_state, instances,
  run_cmd,
}
use sonic_host_services.Featured.Handler.{
  Wanted, enabling, disabling, neither, wanted, act, is_neither, cached, update_feature_state,
}

-- A command that starts services, or one that stops them.
abbrev pub is_raising : Command → Bool
is_raising (systemctl unmask u) = true
is_raising (systemctl enable u) = true
is_raising (systemctl start u) = true
is_raising _ = false

abbrev pub is_lowering : Command → Bool
is_lowering (systemctl stop u) = true
is_lowering (systemctl disable u) = true
is_lowering (systemctl mask u) = true
is_lowering _ = false

if_done :
    (done : Bool) (rest failed : FeatureHandler × Bool)
    → failed.1 ≡ false
    → (if done then rest else failed).1 ≡ true
    → (done ≡ true) × ((if done then rest else failed) ≡ rest)
if_done true rest failed f e = (refl, refl)
if_done false rest failed f e = cc

inserted_here :
    (name : String) (report : Report) (table : List (String × Report))
    → lookup name (insert name report table) ≡ some report
inserted_here name report table =
    ground (arith, lookup-insert name name report table, eq_iff name name)

inserted-All :
    (name : String) (report : Report) (tables : List (List (String × Report)))
    → All (λ table. lookup name table ≡ some report) (map (insert name report) tables)
inserted-All name report [] = tt
inserted-All name report (table ∷ tables) =
    (inserted_here name report table, inserted-All name report tables)

module _ (dev : Device) where
  -- After these commands the service was found enabled, or was unmasked and started with success,
  -- and no service has been stopped since.
  pub data Up (u : Unit_) : List Command → Type 0 where
    found_up : {log : List Command} → is_found_enabled (dev.unit_state log u) ≡ true → Up u log
    started :
        {log : List Command}
        → dev.runs log (systemctl unmask u) ≡ true
        → dev.runs (systemctl enable u ∷ systemctl unmask u ∷ log) (systemctl start u) ≡ true
        → Up u (systemctl start u ∷ systemctl enable u ∷ systemctl unmask u ∷ log)
    still_up : {log : List Command} {c : Command} → is_raising c ≡ true → Up u log → Up u (c ∷ log)

  -- After these commands the service was found disabled or masked, or was stopped, disabled and
  -- masked with success, and no service has been started since.
  pub data Down (u : Unit_) : List Command → Type 0 where
    found_down : {log : List Command} → is_found_disabled (dev.unit_state log u) ≡ true → Down u log
    stopped :
        {log : List Command}
        → dev.runs log (systemctl stop u) ≡ true
        → dev.runs (systemctl stop u ∷ log) (systemctl disable u) ≡ true
        → dev.runs (systemctl disable u ∷ systemctl stop u ∷ log) (systemctl mask u) ≡ true
        → Down u (systemctl mask u ∷ systemctl disable u ∷ systemctl stop u ∷ log)
    still_down :
        {log : List Command} {c : Command} → is_lowering c ≡ true → Down u log → Down u (c ∷ log)

  enable_unit-Up :
      (u : Unit_) (h : FeatureHandler)
      → (enable_unit dev u h).1 ≡ true
      → Up u (enable_unit dev u h).0.log
  unfolding enable_unit run_cmd
  enable_unit-Up u h e =
      let found : is_found_enabled (dev.unit_state h.log u) ≡ true → Up u h.log = λ q. found_up q in
      let ran : dev.runs h.log (systemctl unmask u) ≡ true
          → dev.runs (systemctl enable u ∷ systemctl unmask u ∷ h.log) (systemctl start u) ≡ true
          → Up u (systemctl start u ∷ systemctl enable u ∷ systemctl unmask u ∷ h.log) =
        λ p q. started p q in
      ground arith

  enable_unit-keeps_Up :
      (v u : Unit_) (h : FeatureHandler) → Up v h.log → Up v (enable_unit dev u h).0.log
  unfolding enable_unit run_cmd
  enable_unit-keeps_Up v u h p =
      let p1 : Up v (systemctl unmask u ∷ h.log) = still_up refl p in
      let p3 : Up v (systemctl start u ∷ systemctl enable u ∷ systemctl unmask u ∷ h.log) =
        still_up refl (still_up refl p1) in
      ground arith

  disable_unit-Down :
      (u : Unit_) (h : FeatureHandler)
      → (disable_unit dev u h).1 ≡ true
      → Down u (disable_unit dev u h).0.log
  unfolding disable_unit stop_unit run_cmd
  disable_unit-Down u h e =
      let found : is_found_disabled (dev.unit_state h.log u) ≡ true → Down u h.log =
        λ q. found_down q in
      let ran : dev.runs h.log (systemctl stop u) ≡ true
          → dev.runs (systemctl stop u ∷ h.log) (systemctl disable u) ≡ true
          → dev.runs (systemctl disable u ∷ systemctl stop u ∷ h.log) (systemctl mask u) ≡ true
          → Down u (systemctl mask u ∷ systemctl disable u ∷ systemctl stop u ∷ h.log) =
        λ p q r. stopped p q r in
      ground arith

  disable_unit-keeps_Down :
      (v u : Unit_) (h : FeatureHandler) → Down v h.log → Down v (disable_unit dev u h).0.log
  unfolding disable_unit stop_unit run_cmd
  disable_unit-keeps_Down v u h p =
      let p1 : Down v (systemctl stop u ∷ h.log) = still_down refl p in
      let p2 : Down v (systemctl disable u ∷ systemctl stop u ∷ h.log) = still_down refl p1 in
      let p3 : Down v (systemctl mask u ∷ systemctl disable u ∷ systemctl stop u ∷ h.log) =
        still_down refl p2 in
      ground arith

  enable_units-keeps_Up :
      (v : Unit_) (name : String) (us : List Unit_) (h : FeatureHandler)
      → Up v h.log
      → Up v (enable_units dev name us h).0.log
  unfolding enable_units set_feature_state
  enable_units-keeps_Up v name [] h p = p
  enable_units-keeps_Up v name (u ∷ us) h p =
      let q = enable_unit-keeps_Up v u h p in
      ground (arith, enable_units-keeps_Up v name us (enable_unit dev u h).0 q)

  disable_units-keeps_Down :
      (v : Unit_) (name : String) (us : List Unit_) (h : FeatureHandler)
      → Down v h.log
      → Down v (disable_units dev name us h).0.log
  unfolding disable_units set_feature_state
  disable_units-keeps_Down v name [] h p = p
  disable_units-keeps_Down v name (u ∷ us) h p =
      let q = disable_unit-keeps_Down v u h p in
      ground (arith, disable_units-keeps_Down v name us (disable_unit dev u h).0 q)

  -- What each table of states says of the feature.
  abbrev pub Reports : String → Report → FeatureHandler → Type 0
  Reports name report h = All (λ table. lookup name table ≡ some report) h.feature_state_tables

  set_feature_state-Reports :
      (name : String) (report : Report) (h : FeatureHandler)
      → Reports name report (set_feature_state name report h)
  unfolding set_feature_state
  set_feature_state-Reports name report h = inserted-All name report h.feature_state_tables

  enable_units-Up :
      (name : String) (us : List Unit_) (h : FeatureHandler)
      → (enable_units dev name us h).1 ≡ true
      → All (λ u. Up u (enable_units dev name us h).0.log) us
        × Reports name is_enabled (enable_units dev name us h).0
  unfolding enable_units
  enable_units-Up name [] h e = (tt, set_feature_state-Reports name is_enabled h)
  enable_units-Up name (u ∷ us) h e =
      let (h1, done) = enable_unit dev u h in
      let rest = enable_units dev name us h1 in
      let failed : FeatureHandler × Bool = (set_feature_state name is_failed h1, false) in
      let (ok, same) = if_done done rest failed refl e in
      let (later, reported) = enable_units-Up name us h1 (sym (ap (λ r. r.1) same) ∙ e) in
      subst (λ r. All (λ v. Up v r.0.log) (u ∷ us) × Reports name is_enabled r.0) (sym same)
        (((enable_units-keeps_Up u name us h1 (enable_unit-Up u h ok)), later), reported)

  disable_units-Down :
      (name : String) (us : List Unit_) (h : FeatureHandler)
      → (disable_units dev name us h).1 ≡ true
      → All (λ u. Down u (disable_units dev name us h).0.log) us
        × Reports name is_disabled (disable_units dev name us h).0
  unfolding disable_units
  disable_units-Down name [] h e = (tt, set_feature_state-Reports name is_disabled h)
  disable_units-Down name (u ∷ us) h e =
      let (h1, done) = disable_unit dev u h in
      let rest = disable_units dev name us h1 in
      let failed : FeatureHandler × Bool = (set_feature_state name is_failed h1, false) in
      let (ok, same) = if_done done rest failed refl e in
      let (later, reported) = disable_units-Down name us h1 (sym (ap (λ r. r.1) same) ∙ e) in
      subst (λ r. All (λ v. Down v r.0.log) (u ∷ us) × Reports name is_disabled r.0) (sym same)
        (((disable_units-keeps_Down u name us h1 (disable_unit-Down u h ok)), later), reported)

  -- What the goal of an update asks of the services and of the tables.
  abbrev pub Reached : Wanted → Feature → FeatureHandler → Type 0
  Reached enabling f h = All (λ u. Up u h.log) (instances dev false f) × Reports f.name is_enabled h
  Reached disabling f h =
      All (λ u. Down u h.log) (instances dev false f) × Reports f.name is_disabled h
  Reached neither f h = Unit

  if_not :
      (b : Bool) (r : FeatureHandler × Bool) (h : FeatureHandler)
      → (if b then (h, false) else r).1 ≡ true
      → (b ≡ false) × (r.1 ≡ true)
  if_not b r h e = ground arith

  enable_feature-Up :
      (f : Feature) (h : FeatureHandler)
      → (enable_feature dev f h).1 ≡ true
      → Reached enabling f (enable_feature dev f h).0
  unfolding enable_feature
  enable_feature-Up f h e =
      let (listed, done) =
        if_not (is_exclusion_listed f.name) (enable_units dev f.name (instances dev false f) h) h
          e in
      rw (listed) (enable_units-Up f.name (instances dev false f) h done)

  disable_feature-Down :
      (f : Feature) (h : FeatureHandler)
      → (disable_feature dev f h).1 ≡ true
      → Reached disabling f (disable_feature dev f h).0
  unfolding disable_feature
  disable_feature-Down f h e =
      let (listed, done) =
        if_not (is_exclusion_listed f.name) (disable_units dev f.name (instances dev false f) h) h
          e in
      rw (listed) (disable_units-Down f.name (instances dev false f) h done)

  act-Reached :
      (w : Wanted) (f : Feature) (h : FeatureHandler)
      → (act dev w f h).1 ≡ true
      → Reached w f (act dev w f h).0
  act-Reached enabling f h e = enable_feature-Up f h e
  act-Reached disabling f h e = disable_feature-Down f h e
  act-Reached neither f h e = tt

  reached :
      (w : Wanted) (f : Feature) (h : FeatureHandler) (b : Bool)
      → b ≡ false
      → (if is_neither w then (h, false) else if b then (h, true) else act dev w f h).1 ≡ true
      → Reached w f (if is_neither w then (h, false) else if b then (h, true) else act dev w f h).0
  reached enabling f h true now e = cc
  reached enabling f h false now e = act-Reached enabling f h e
  reached disabling f h true now e = cc
  reached disabling f h false now e = act-Reached disabling f h e
  reached neither f h b now e = tt

-- An update that succeeds on a feature whose services are not put off leaves every service of the
-- feature up if the transition enables it, and down if it disables it, and all tables of states
-- report that.
pub update_feature_state-Reached :
    (dev : Device) (f : Feature) (h : FeatureHandler)
    → (f.delayed && not h.is_delayed_enabled) ≡ false
    → (update_feature_state dev f h).1 ≡ true
    → Reached dev (wanted (cached f.name h).state f.state) f (update_feature_state dev f h).0
unfolding update_feature_state
update_feature_state-Reached dev f h now e =
    reached dev (wanted (cached f.name h).state f.state) f h (f.delayed && not h.is_delayed_enabled)
      now e
