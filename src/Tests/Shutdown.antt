-- ===== src/Tests/Shutdown.antt =====
-- scripts/gnoi_shutdown_daemon.py at concrete inputs.
use sonic_host_services.Base.{
  ◌≡◌, refl, ℕ, ◌*◌, Bool, true, false, some, List, [], ◌∷◌, String, leb, arith,
}
use sonic_host_services.Shutdown.{
  Env, Tests, Action, send_reboot, call_clear_halt_flag, there, not_down, no_timeout,
  handle_transition, get_halt_timeout, poll, poll_reboot_status, wait_for_gnoi_halt_in_progress,
  should_skip_gnoi_shutdown, get_dpu_ip, get_dpu_gnmi_port,
}
use sonic_host_services.Shutdown.Outcome.{
  ClearsLast, Halted, handle_transition-ClearsLast, handle_transition-Halted,
}
use sonic_host_services.Shutdown.Polls.{Sleeps}
use sonic_host_services.Shutdown.Daemon.{init, on_message, started, continued, message}
use sonic_host_services.Shutdown.Daemon.Once.{Counted, reachable-Counted}

abbrev tests : (ℕ → Bool) → Tests
tests found = record { elapsed = λ i. i * 1000; found = found }

sleeps : (found : ℕ → Bool) → Sleeps (tests found)
sleeps found i = omega arith

abbrev env : Env
env = record {
  module_ = there;
  oper_status = not_down;
  clears = true;
  hget = λ key field. some "10";
  config_raises = false;
  reboot_succeeds = true;
  platform = no_timeout;
  halt_tests = tests (λ i. leb 1 i);
  status_tests = tests (λ i. leb 2 i);
}

abbrev names : List String
names = "dpu0" ∷ "DPU0" ∷ "DPU0" ∷ []

halted :
    handle_transition env 61 names ≡ some (send_reboot "10" "10" ∷ call_clear_halt_flag ∷ [], true)
unfolding handle_transition poll poll_reboot_status wait_for_gnoi_halt_in_progress get_halt_timeout
    should_skip_gnoi_shutdown get_dpu_ip get_dpu_gnmi_port
halted = refl

handle_transition-ClearsLast_example :
    (actions : List Action) × (b : Bool) × (handle_transition env 61 names ≡ some (actions, b))
    × ClearsLast actions
unfolding get_halt_timeout
handle_transition-ClearsLast_example =
    handle_transition-ClearsLast env 60 60 names refl (sleeps (λ i. leb 1 i))
      (sleeps (λ i. leb 2 i)) (omega arith)

handle_transition-Halted_example : Halted env
handle_transition-Halted_example =
    handle_transition-Halted env 61 names (send_reboot "10" "10" ∷ call_clear_halt_flag ∷ []) halted

reachable-Counted_example : Counted (on_message (some "down") "DPU0" init) "DPU0"
reachable-Counted_example =
    reachable-Counted (on_message (some "down") "DPU0" init) "DPU0"
      (continued started (message (some "down") "DPU0"))
