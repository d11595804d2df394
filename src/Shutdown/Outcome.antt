-- ===== src/Shutdown/Outcome.antt =====
-- How a transition ends: with the call to clear the flag, and last.
use sonic_host_services.Base.{
  ◌>>=◌, ℕ, suc, ◌*◌, ◌≤◌, ◌<◌, Bool, true, false, not, Option, none, some, List, [], ◌∷◌, String,
  ◌≡◌, ◌⊎◌, inl, inr, refl, subst, sym, arith, if◌then◌else◌,
}
use sonic_host_services.Shutdown.{
  poll, skip_of, cleared, down, there, OperStatus, Module, not_down, status_raises, no_module,
  asking_raises, down, Env, Action, Outcome, send_reboot, call_clear_halt_flag, handle_transition,
  after_wait, with_ip, after_status, poll_reboot_status, wait_for_gnoi_halt_in_progress,
  get_halt_timeout, get_dpu_ip, get_dpu_gnmi_port, should_skip_gnoi_shutdown, clear_halt_flag,
  is_true, lower_name,
}
use sonic_host_services.Shutdown.Polls.{Sleeps, poll-ends, poll-found}

-- The actions of a transition: the call to clear the flag, and before that at most one reboot.
abbrev pub ClearsLast : List Action → Type 0
ClearsLast actions =
    (actions ≡ call_clear_halt_flag ∷ [])
    ⊎ ((ip : String) × (port : String) × (actions
          ≡ send_reboot ip port ∷ call_clear_halt_flag ∷ []))

-- What the transition of an answer is: it is there, and clears the flag last.
abbrev Ended : Option Outcome → Type 0
Ended o = (actions : List Action) × (b : Bool) × (o ≡ some (actions, b)) × ClearsLast actions

if-Ended : (b : Bool) (s t : Option Outcome) → Ended s → Ended t → Ended (if b then s else t)
if-Ended true s t h k = h
if-Ended false s t h k = k

module _ (env : Env) (fuel : ℕ) where
  with_ip-Ended :
      (port : String) (ip : Option String) (b : Bool)
      → poll_reboot_status env fuel ≡ some b
      → Ended (with_ip env fuel port ip)
  with_ip-Ended port none b e = (_, _, refl, inl refl)
  with_ip-Ended port (some ip) b e =
      let polled : Ended (after_status ip port (poll_reboot_status env fuel)) =
        subst (λ o. Ended (after_status ip port o)) (sym e) (_, _, refl, inr (ip, port, refl)) in
      if-Ended (not env.reboot_succeeds)
        (some (send_reboot ip port ∷ call_clear_halt_flag ∷ [], false))
        (after_status ip port (poll_reboot_status env fuel)) (_, _, refl, inr (ip, port, refl))
        polled

  after_wait-Ended :
      (names : List String) (o : Option Bool) (d b : Bool)
      → o ≡ some d
      → poll_reboot_status env fuel ≡ some b
      → Ended (after_wait env fuel names o)
  after_wait-Ended names none d b e f = cc
  after_wait-Ended names (some d2) d b e f =
      let port = get_dpu_gnmi_port env.hget names in
      let ip = get_dpu_ip env.hget (lower_name names) in
      if-Ended env.config_raises (some (call_clear_halt_flag ∷ [], false))
        (with_ip env fuel port ip) (_, _, refl, inl refl) (with_ip-Ended port ip b f)

-- If a timeout is found, there is at least a second between tests and fuel for one every second
-- until the timeout, then a transition ends, and on every path it calls _clear_halt_flag once, as
-- its last action, after at most one reboot command. Whether the call clears the flag is left open.
pub handle_transition-ClearsLast :
    (env : Env) (timeout fuel : ℕ) (names : List String)
    → get_halt_timeout env.platform ≡ some timeout
    → Sleeps env.halt_tests
    → Sleeps env.status_tests
    → timeout ≤ fuel
    → (actions : List Action) × (b : Bool) × (handle_transition env (suc fuel) names
        ≡ some (actions, b))
      × ClearsLast actions
unfolding handle_transition wait_for_gnoi_halt_in_progress poll_reboot_status
handle_transition-ClearsLast env timeout fuel names found halts statuses enough =
    let (d, waits) = poll-ends env.halt_tests timeout fuel 0 halts (omega arith) in
    let (b, polls) = poll-ends env.status_tests timeout fuel 0 statuses (omega arith) in
    let waited : wait_for_gnoi_halt_in_progress env (suc fuel) ≡ some d = rw (found) waits in
    let polled : poll_reboot_status env (suc fuel) ≡ some b = rw (found) polls in
    if-Ended (is_true (should_skip_gnoi_shutdown env))
      (some (call_clear_halt_flag ∷ [], clear_halt_flag env))
      (after_wait env (suc fuel) names (wait_for_gnoi_halt_in_progress env (suc fuel)))
      (_, _, refl, inl refl) (after_wait-Ended env (suc fuel) names _ d b waited polled)

-- What a successful transition saw.
abbrev pub Halted : Env → Type 0
Halted env =
    ((env.oper_status ≡ down) × (env.clears ≡ true))
    ⊎ ((timeout : ℕ) × (get_halt_timeout env.platform ≡ some timeout)
        × ((j : ℕ) × (env.status_tests.elapsed j < timeout * 1000)
            × (env.status_tests.found j ≡ true)))

module _ (env : Env) (fuel : ℕ) where
  after_status-success :
      (ip port : String) (o : Option Bool) (actions : List Action)
      → poll_reboot_status env fuel ≡ o
      → after_status ip port o ≡ some (actions, true)
      → Halted env
  unfolding poll_reboot_status
  after_status-success ip port none actions e h = cc
  after_status-success ip port (some true) actions e h =
      of_timeout (get_halt_timeout env.platform) refl e
    where
      of_timeout :
          (o : Option ℕ)
          → get_halt_timeout env.platform ≡ o
          → (o >>= λ timeout. poll env.status_tests timeout fuel 0) ≡ some true
          → Halted env
      of_timeout none f g = cc
      of_timeout (some timeout) f g = inr (timeout, f, poll-found env.status_tests timeout fuel 0 g)
  after_status-success ip port (some false) actions e h = cc

  with_ip-success :
      (port : String) (ip : Option String) (actions : List Action) (r : Bool)
      → env.reboot_succeeds ≡ r
      → with_ip env fuel port ip ≡ some (actions, true)
      → Halted env
  with_ip-success port none actions r e h = cc
  with_ip-success port (some ip) actions false e h = absurd (false_sent h)
    where
      false_sent : with_ip env fuel port (some ip) ≡ some (actions, true) → ⊥
      false_sent k = ground arith
  with_ip-success port (some ip) actions true e h =
      after_status-success ip port (poll_reboot_status env fuel) actions refl (ground arith)

  after_wait-success :
      (names : List String) (o : Option Bool) (actions : List Action) (r c : Bool)
      → env.reboot_succeeds ≡ r
      → env.config_raises ≡ c
      → after_wait env fuel names o ≡ some (actions, true)
      → Halted env
  after_wait-success names none actions r c e f h = cc
  after_wait-success names (some d) actions r true e f h = absurd (false_raised h)
    where
      false_raised : after_wait env fuel names (some d) ≡ some (actions, true) → ⊥
      false_raised k = ground arith
  after_wait-success names (some d) actions r false e f h =
      with_ip-success (get_dpu_gnmi_port env.hget names) (get_dpu_ip env.hget (lower_name names))
        actions r e (ground arith)

cleared_down :
    (m : Module) (s : OperStatus) (clears : Bool)
    → is_true (skip_of m s) ≡ true
    → cleared m clears ≡ true
    → (s ≡ down) × (clears ≡ true)
cleared_down there down clears skip h = (refl, h)
cleared_down there not_down clears skip h = cc
cleared_down there status_raises clears skip h = cc
cleared_down no_module s clears skip h = cc
cleared_down asking_raises s clears skip h = cc

choose_success :
    (env : Env) (b c : Bool) (o : Option Outcome) (actions : List Action)
    → (b ≡ true → c ≡ true → Halted env)
    → (o ≡ some (actions, true) → Halted env)
    → (if b then some (call_clear_halt_flag ∷ [], c) else o) ≡ some (actions, true)
    → Halted env
choose_success env true true o actions h k e = h refl refl
choose_success env true false o actions h k e = cc
choose_success env false c o actions h k e = k e

-- A transition that reports success found the module down and cleared its flag, or was told before
-- the deadline that the reboot is complete.
pub handle_transition-Halted :
    (env : Env) (fuel : ℕ) (names : List String) (actions : List Action)
    → handle_transition env fuel names ≡ some (actions, true)
    → Halted env
unfolding handle_transition should_skip_gnoi_shutdown clear_halt_flag
handle_transition-Halted env fuel names actions =
    choose_success env (is_true (should_skip_gnoi_shutdown env)) (clear_halt_flag env)
      (after_wait env fuel names (wait_for_gnoi_halt_in_progress env fuel)) actions
      (λ skip done. inl (cleared_down env.module_ env.oper_status env.clears skip done))
      (after_wait-success env fuel names (wait_for_gnoi_halt_in_progress env fuel) actions
        env.reboot_succeeds env.config_raises refl refl)
