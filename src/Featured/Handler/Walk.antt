-- ===== src/Featured/Handler/Walk.antt =====
-- The walk of a feature through the diagram of its states, message by message.
use sonic_host_services.Base.{
  Bool, true, false, Option, none, List, [], ◌∷◌, String, str_eq, ◌≡◌, inl, inr, refl, ◌∙◌, ap, sym,
  subst, arith, if◌then◌else◌,
}
use sonic_host_services.Base.Dict.{lookup, lookup-erase}
use sonic_host_services.Featured.{State, Feature, FeatureHandler, Device}
use sonic_host_services.Featured.Handler.{
  cached_or, configure, deregister, update_feature_state, update_delayed, enable_delayed_services,
  handle_port_table_timeout, port_listener, Message, configured, deleted, invalid, port,
  port_table_timeout, is_invalid, receive, run,
}
use sonic_host_services.Featured.Handler.Transitions.{
  Allowed, life, life_same, Moves, configure-Moves, update_feature_state-Agrees,
}

abbrev pub deletes : String → Message → Bool
deletes name (deleted n) = str_eq n name
deletes name _ = false

-- What one message does to the cached state of a feature.
pub data Edge (name : String) : Message → Option State → Option State → Type 0 where
  keeps : {m : Message} {s : Option State} → deletes name m ≡ false → Edge name m s s
  drops : {m : Message} {s : Option State} → deletes name m ≡ true → Edge name m s none
  moves :
      {f : Feature} {s : Option State}
      → f.name ≡ name
      → Allowed s f.state
      → Edge name (configured f) s f.state

-- A path through the diagram, by the messages that take it.
pub data Life (name : String) : List Message → Option State → Option State → Type 0 where
  done : {s : Option State} → Life name [] s s
  raised : {ms : List Message} {s : Option State} → Life name (invalid ∷ ms) s s
  step :
      {m : Message} {ms : List Message} {s t u : Option State}
      → is_invalid m ≡ false
      → Edge name m s t
      → Life name ms t u
      → Life name (m ∷ ms) s u

cached_or-dropped :
    (b : Bool) (j : String) (o : Option Feature)
    → (cached_or j (if b then none else o)).state ≡ (if b then none else (cached_or j o).state)
cached_or-dropped true j o = refl
cached_or-dropped false j o = refl

erased-Edge :
    (b : Bool) (name n : String) (s t : Option State)
    → str_eq n name ≡ b
    → t ≡ (if b then none else s)
    → Edge name (deleted n) s t
erased-Edge true name n s t e q = subst (λ x. Edge name (deleted n) s x) (sym q) (drops e)
erased-Edge false name n s t e q = subst (λ x. Edge name (deleted n) s x) (sym q) (keeps e)

only_invalid :
    (name : String) (m : Message) (ms : List Message) (s : Option State)
    → is_invalid m ≡ true
    → Life name (m ∷ ms) s s
only_invalid name (configured f) ms s e = cc
only_invalid name (deleted n) ms s e = cc
only_invalid name (port key op) ms s e = cc
only_invalid name invalid ms s e = raised
only_invalid name port_table_timeout ms s e = cc

module _ (dev : Device) where
  update_delayed-cached :
      (features : List (String × Feature)) (h : FeatureHandler)
      → (update_delayed dev features h).cached_config ≡ h.cached_config
  unfolding update_delayed
  update_delayed-cached [] h = refl
  update_delayed-cached ((name, f) ∷ features) h = ground (
    arith,
    (update_feature_state-Agrees dev f h).cached_config,
    update_delayed-cached features (update_feature_state dev f h).0,
    update_delayed-cached features h,
  )

  enable_delayed_services-cached :
      (h : FeatureHandler) → (enable_delayed_services dev h).cached_config ≡ h.cached_config
  unfolding enable_delayed_services
  enable_delayed_services-cached h =
      update_delayed-cached h.cached_config (record h { is_delayed_enabled = true })

  deregister-Edge :
      (name n : String) (h : FeatureHandler)
      → Edge name (deleted n) (life name h) (life name (deregister dev n h))
  unfolding deregister
  deregister-Edge name n h =
      erased-Edge (str_eq n name) name n (life name h) (life name (deregister dev n h)) refl (
        ap (λ o. (cached_or name o).state) (lookup-erase n name h.cached_config)
        ∙ cached_or-dropped (str_eq n name) name (lookup name h.cached_config))

  keeps_cached :
      (name : String) (m : Message) (g h : FeatureHandler)
      → deletes name m ≡ false
      → g.cached_config ≡ h.cached_config
      → Edge name m (life name h) (life name g)
  keeps_cached name m g h q e =
      subst (λ x. Edge name m (life name h) x) (sym (life_same name g h e)) (keeps q)

  configured-Edge :
      (name : String) (f : Feature) (h g : FeatureHandler)
      → Moves dev f name h g
      → Edge name (configured f) (life name h) (life name g)
  configured-Edge name f h g (inl e) =
      subst (λ x. Edge name (configured f) (life name h) x) (sym e) (keeps refl)
  configured-Edge name f h g (inr (named, allowed, e)) =
      subst (λ x. Edge name (configured f) (life name h) x) (sym e) (moves named allowed)

  receive-Edge :
      (name : String) (m : Message) (h : FeatureHandler)
      → Edge name m (life name h) (life name (receive dev m h))
  unfolding receive port_listener handle_port_table_timeout
  receive-Edge name (configured f) h =
      configured-Edge name f h (configure dev f h) (configure-Moves dev f name h)
  receive-Edge name (deleted n) h = deregister-Edge name n h
  receive-Edge name (port key op) h =
      keeps_cached name (port key op) (receive dev (port key op) h) h refl
        (ground (arith, enable_delayed_services-cached h))
  receive-Edge name invalid h = keeps refl
  receive-Edge name port_table_timeout h =
      keeps_cached name port_table_timeout (receive dev port_table_timeout h) h refl
        (ground (arith, enable_delayed_services-cached h))

  run_step :
      (name : String) (m : Message) (ms : List Message) (h : FeatureHandler) (b : Bool)
      → is_invalid m ≡ b
      → Life name ms (life name (receive dev m h)) (life name (run dev ms (receive dev m h)))
      → Life name (m ∷ ms) (life name h) (life name (if b then h else run dev ms (receive dev m h)))
  run_step name m ms h true e rest = only_invalid name m ms (life name h) e
  run_step name m ms h false e rest = step e (receive-Edge name m h) rest

-- Whatever messages reach the daemon, the cached state of each feature walks the diagram: a message
-- that deletes the feature takes it to no state, a configuration of that feature may take it along
-- an allowed transition to the configured state, and every other message keeps it. An invalid
-- configuration ends the walk.
pub run-Life :
    (dev : Device) (name : String) (ms : List Message) (h : FeatureHandler)
    → Life name ms (life name h) (life name (run dev ms h))
unfolding run
run-Life dev name [] h = done
run-Life dev name (m ∷ ms) h =
    run_step dev name m ms h (is_invalid m) refl (run-Life dev name ms (receive dev m h))
