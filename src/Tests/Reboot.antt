-- ===== src/Tests/Reboot.antt =====
-- host_modules/reboot.py at concrete inputs.
use sonic_host_services.Base.{◌≡◌, refl, ℕ, ◌*◌, ◌⊎◌, Bool, true, false, none, some, [], ltb, arith}
use sonic_host_services.Host.Reboot.{
  number, Request, Reboot, System, Run, unreadable, init, issue_reboot, execute_reboot, wait_halt,
  populate_reboot_status_flag, get_dpu_halt_services_timeout, status_success, status_failure,
}
use sonic_host_services.Host.Reboot.Halt.{Sleeps, execute_reboot-ends, execute_reboot-failure}
use sonic_host_services.Host.Reboot.Status.{
  started, continued, requested, Guarded, reachable-Guarded,
}
use sonic_host_services.Host.Reboot.Ends.{reachable-inactive}

abbrev request : Request
request = record { method = some (number 3); delay = none; message = none }

abbrev idle : System
idle = record { service = init; threads = [] }

abbrev run : (ℕ → Bool) → Run
run running = record {
  command_fails = false;
  probes = record { elapsed = λ i. i * 5000; running = running };
  platform = unreadable;
  end_time = 7;
}

sleeps : (running : ℕ → Bool) → Sleeps (run running).probes
sleeps running i = omega arith

abbrev stops : Run
stops = run (λ i. ltb i 2)

abbrev stays : Run
stays = run (λ i. true)

reachable-Guarded_example : Guarded (issue_reboot 5 true (some request) idle).0
reachable-Guarded_example =
    reachable-Guarded {all = true} (continued started (requested 5 true (some request) (λ e. e)))

reachable-inactive_example :
    (issue_reboot 5 true none idle).0.service.reboot_status_flag.active ≡ false
unfolding issue_reboot
reachable-inactive_example =
    reachable-inactive (issue_reboot 5 true none idle).0
      (continued started (requested 5 true none (λ e. e))) refl

execute_reboot-ends_example :
    (r : Reboot) × (execute_reboot stops 13 (number 3) init ≡ some r)
    × (r.reboot_status_flag.active ≡ false)
    × ((r.reboot_status_flag.status ≡ status_success)
        ⊎ (r.reboot_status_flag.status ≡ status_failure))
unfolding get_dpu_halt_services_timeout
execute_reboot-ends_example =
    execute_reboot-ends stops 12 (number 3) init refl refl (sleeps (λ i. ltb i 2)) (omega arith)

execute_reboot-failure_example : stays.probes.running 3 ≡ true
unfolding get_dpu_halt_services_timeout execute_reboot wait_halt populate_reboot_status_flag
execute_reboot-failure_example =
    execute_reboot-failure stays 12 (number 3) init _ 3 refl refl (sleeps (λ i. true)) (omega arith)
      refl refl (omega arith)
