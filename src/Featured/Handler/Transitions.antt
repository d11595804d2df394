-- ===== src/Featured/Handler/Transitions.antt =====
-- The life of a feature in the daemon: its cached state follows the diagram of transitions.
use sonic_host_services.Base.{
  Bool, true, false, Option, none, some, List, [], ◌∷◌, String, str_eq, eq_iff, ◌≡◌, ◌⊎◌, inl, inr,
  Bool-cases, refl, ◌∙◌, ap, sym, subst, arith, if◌then◌else◌,
}
use sonic_host_services.Base.Dict.{lookup, lookup-insert}
use sonic_host_services.Base.Text.{text_eq}
use sonic_host_services.Featured.{
  State, enabled, disabled, always_enabled, always_disabled, Feature, Unit_, FeatureHandler, Device,
}
use sonic_host_services.Featured.Units.{
  instances, stop_unit, set_feature_state, update_systemd_config,
}
use sonic_host_services.Featured.Units.Keeps.{
  Agrees, Agrees-refl, stop_unit-Agrees, enable_feature-Agrees, disable_feature-Agrees,
  update_systemd_config-Agrees,
}
use sonic_host_services.Featured.Tables.{resync_feature_state, sync_scope_fields}
use sonic_host_services.Featured.Handler.{
  Wanted, cached, cached_or, put_cached, enabling, disabling, neither, wanted, act, is_neither,
  update_feature_state, sync_scope_units, sync_feature_scope, update_auto_restart, after_update,
  state_differs, configure,
}

-- The diagram: the transitions that a new configuration may bring.
pub data Allowed : Option State → Option State → Type 0 where
  first : {s : State} → Allowed none (some s)
  enables : Allowed (some disabled) (some enabled)
  disables : Allowed (some enabled) (some disabled)
  always_enables : Allowed (some always_disabled) (some always_enabled)
  always_disables : Allowed (some always_enabled) (some always_disabled)

wanted-Allowed :
    (s t : Option State) → is_neither (wanted s t) ≡ false → state_differs s t ≡ true → Allowed s t
unfolding wanted
wanted-Allowed none none w d = cc
wanted-Allowed none (some t) w d = first
wanted-Allowed (some enabled) (some disabled) w d = disables
wanted-Allowed (some disabled) (some enabled) w d = enables
wanted-Allowed (some always_enabled) (some always_disabled) w d = always_disables
wanted-Allowed (some always_disabled) (some always_enabled) w d = always_enables
wanted-Allowed (some enabled) none w d = cc
wanted-Allowed (some disabled) none w d = cc
wanted-Allowed (some always_enabled) none w d = cc
wanted-Allowed (some always_disabled) none w d = cc
wanted-Allowed (some enabled) (some enabled) w d = cc
wanted-Allowed (some enabled) (some always_enabled) w d = cc
wanted-Allowed (some enabled) (some always_disabled) w d = cc
wanted-Allowed (some disabled) (some disabled) w d = cc
wanted-Allowed (some disabled) (some always_enabled) w d = cc
wanted-Allowed (some disabled) (some always_disabled) w d = cc
wanted-Allowed (some always_enabled) (some always_enabled) w d = cc
wanted-Allowed (some always_enabled) (some enabled) w d = cc
wanted-Allowed (some always_enabled) (some disabled) w d = cc
wanted-Allowed (some always_disabled) (some always_disabled) w d = cc
wanted-Allowed (some always_disabled) (some enabled) w d = cc
wanted-Allowed (some always_disabled) (some disabled) w d = cc

cached_or-if :
    (b : Bool) (j : String) (f : Feature) (o : Option Feature)
    → cached_or j (if b then some f else o) ≡ (if b then f else cached_or j o)
cached_or-if true j f o = refl
cached_or-if false j f o = refl

pub cached-put_cached :
    (name j : String) (f : Feature) (h : FeatureHandler)
    → cached j (put_cached name f h) ≡ (if str_eq name j then f else cached j h)
cached-put_cached name j f h =
    rw (lookup-insert name j f h.cached_config)
      (cached_or-if (str_eq name j) j f (lookup j h.cached_config))

-- The cached state of a feature.
abbrev pub life : String → FeatureHandler → Option State
life name h = (cached name h).state

life-chosen :
    (b : Bool) (j : String) (f c : Feature) (h : FeatureHandler)
    → c ≡ (if b then f else cached j h)
    → c.state ≡ (if b then f.state else life j h)
life-chosen true j f c h e = ap (λ (x : Feature). x.state) e
life-chosen false j f c h e = ap (λ (x : Feature). x.state) e

life-found :
    (b : Bool) (name j : String) (f : Feature) (h : FeatureHandler)
    → str_eq name j ≡ b
    → life j (put_cached name f h) ≡ (if b then f.state else life j h)
life-found b name j f h e = life-chosen b j f (cached j (put_cached name f h)) h (
    subst (λ (c : Bool). cached j (put_cached name f h) ≡ (if c then f else cached j h)) e
      (cached-put_cached name j f h))

pub life-put_cached :
    (name j : String) (f : Feature) (h : FeatureHandler)
    → f.state ≡ life name h
    → life j (put_cached name f h) ≡ life j h
life-put_cached name j f h e =
    ap (λ (x : Feature). x.state) (cached-put_cached name j f h) ∙ ground (arith, eq_iff name j)

life-if :
    (b : Bool) (j : String) (h g k : FeatureHandler)
    → life j g ≡ life j h
    → life j k ≡ life j h
    → life j (if b then g else k) ≡ life j h
life-if true j h g k p q = p
life-if false j h g k p q = q

pub life_same :
    (j : String) (g h : FeatureHandler) → g.cached_config ≡ h.cached_config → life j g ≡ life j h
life_same j g h e = ap (λ c. (cached_or j (lookup j c)).state) e

module _ (dev : Device) where
  act-Agrees : (w : Wanted) (f : Feature) (h : FeatureHandler) → Agrees (act dev w f h).0 h
  act-Agrees enabling f h = enable_feature-Agrees dev f h
  act-Agrees disabling f h = disable_feature-Agrees dev f h
  act-Agrees neither f h = Agrees-refl h

  pub update_feature_state-Agrees :
      (f : Feature) (h : FeatureHandler) → Agrees (update_feature_state dev f h).0 h
  unfolding update_feature_state
  update_feature_state-Agrees f h = ground (arith, act-Agrees (wanted (life f.name h) f.state) f h)

  update_feature_state-wanted :
      (f : Feature) (h : FeatureHandler)
      → (update_feature_state dev f h).1 ≡ true
      → is_neither (wanted (life f.name h) f.state) ≡ false
  unfolding update_feature_state
  update_feature_state-wanted f h e = ground arith

  sync_scope_units-cached :
      (f : Feature) (us : List Unit_) (h : FeatureHandler)
      → (sync_scope_units dev f us h).0.cached_config ≡ h.cached_config
  unfolding sync_scope_units set_feature_state
  sync_scope_units-cached f [] h = refl
  sync_scope_units-cached f (u ∷ us) h = ground (
    arith,
    stop_unit-Agrees dev u h,
    sync_scope_units-cached f us (stop_unit dev u h).0,
    sync_scope_units-cached f us h,
  )

  sync_feature_scope-cached :
      (f : Feature) (h : FeatureHandler)
      → (sync_feature_scope dev f h).cached_config ≡ h.cached_config
  unfolding sync_feature_scope sync_scope_fields
  sync_feature_scope-cached f h = ground (arith, sync_scope_units-cached f (instances dev true f) h)

  pub life-update_auto_restart :
      (f : Feature) (j : String) (h : FeatureHandler)
      → life j (update_auto_restart dev f h) ≡ life j h
  unfolding update_auto_restart
  life-update_auto_restart f j h =
      let c = record (cached f.name h) { auto_restart = f.auto_restart } in
      let g = update_systemd_config dev f h in
      let same = (update_systemd_config-Agrees dev f h).cached_config in
      life-if (text_eq (cached f.name h).auto_restart f.auto_restart) j h h (put_cached f.name c g)
        refl (life-put_cached f.name j c g (sym (life_same f.name g h same)) ∙ life_same j g h same)

  -- How a configuration may change a cached state.
  abbrev pub Moves : Feature → String → FeatureHandler → FeatureHandler → Type 0
  Moves f j h g =
      (life j g ≡ life j h) ⊎ ((f.name ≡ j) × Allowed (life j h) f.state × (life j g ≡ f.state))

  put_cached-Moves :
      (f : Feature) (j : String) (h k : FeatureHandler)
      → k.cached_config ≡ h.cached_config
      → Allowed (life f.name h) f.state
      → Moves f j h (put_cached f.name f k)
  put_cached-Moves f j h k same allowed = elim (Bool-cases (str_eq f.name j)) [
    | inl e ↦
        let named : f.name ≡ j = (eq_iff f.name j).0 e in
        inr (
          named,
          subst (λ n. Allowed (life n h) f.state) named allowed,
          life-found true f.name j f k e,
        )
    | inr e ↦ inl (life-found false f.name j f k e ∙ life_same j k h same)
  ]

  after_update-Moves :
      (f : Feature) (j : String) (h : FeatureHandler) (r : FeatureHandler × Bool)
      → r.0.cached_config ≡ h.cached_config
      → (r.1 ≡ true → Allowed (life f.name h) f.state)
      → Moves f j h (after_update dev f r)
  unfolding resync_feature_state
  after_update-Moves f j h (g, false) e moves = inl (life_same j g h e)
  after_update-Moves f j h (g, true) e moves =
      let k = resync_feature_state f (sync_feature_scope dev f g) in
      let same : k.cached_config ≡ h.cached_config = sync_feature_scope-cached f g ∙ e in
      put_cached-Moves f j h k same (moves refl)

  update-Moves :
      (f : Feature) (j : String) (h : FeatureHandler)
      → state_differs (life f.name h) f.state ≡ true
      → Moves f j h (after_update dev f (update_feature_state dev f h))
  update-Moves f j h d =
      after_update-Moves f j h (update_feature_state dev f h)
        (update_feature_state-Agrees f h).cached_config
        (λ e. wanted-Allowed (life f.name h) f.state (update_feature_state-wanted f h e) d)

  Moves-from :
      (f : Feature) (j : String) (h g k : FeatureHandler)
      → ((i : String) → life i g ≡ life i h)
      → Moves f j g k
      → Moves f j h k
  Moves-from f j h g k same (inl e) = inl (e ∙ same j)
  Moves-from f j h g k same (inr (named, allowed, e)) =
      inr (named, subst (λ s. Allowed s f.state) (same j) allowed, e)

  pub configure-Moves :
      (f : Feature) (j : String) (h : FeatureHandler) → Moves f j h (configure dev f h)
  unfolding configure
  configure-Moves f j h =
      let k = put_cached f.name (cached f.name h) h in
      let g = update_auto_restart dev f k in
      let same : (i : String) → life i g ≡ life i h =
        λ i. life-update_auto_restart f i k ∙ life-put_cached f.name i (cached f.name h) h refl in
      elim (Bool-cases (state_differs (life f.name g) f.state)) [
        | inl d ↦ rw (d) (
            Moves-from f j h g (after_update dev f (update_feature_state dev f g)) same
              (update-Moves f j g d))
        | inr d ↦ rw (d) (inl (same j))
      ]
