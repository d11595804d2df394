-- ===== src/Host/Reboot/Halt.antt =====
-- The wait for a halt: it ends, and what it reports is what the probes saw.
use Prim.Native.Nat.{zero, suc}
use sonic_host_services.Base.{
  Bool, true, false, Option, subst, refl, inl, inr, ◌⊎◌, ◌≡◌, some, none, ℕ, ◌+◌, ◌*◌, ◌≤◌, ◌<◌,
  true, none, some, ◌≡◌, ◌≢◌, arith,
}
use sonic_host_services.Host.Reboot.{
  Halted, Value, Run, Reboot, Command, execute_reboot, run_command, after_halt, command_of,
  is_halt_boot, get_dpu_halt_services_timeout, populate_reboot_status_flag, status_success,
  status_failure, Probes, completed, did_not_complete, wait_halt,
}

-- A sleep of five seconds between two probes lasts that long.
abbrev pub Sleeps : Probes → Type 0
Sleeps probes = (i : ℕ) → probes.elapsed i + 5000 ≤ probes.elapsed (suc i)

-- Enough fuel for the probes that the remaining time allows gives a result.
pub wait_halt-ends :
    (probes : Probes) (timeout fuel i : ℕ)
    → Sleeps probes
    → timeout * 1000 ≤ probes.elapsed i + 5000 * fuel
    → wait_halt probes timeout (suc fuel) i ≢ none
unfolding wait_halt
wait_halt-ends probes timeout zero i sleeps enough = ground arith
wait_halt-ends probes timeout (suc fuel) i sleeps enough =
    ground (arith, wait_halt-ends probes timeout fuel (suc i) sleeps, sleeps i)

elapsed_mono :
    (probes : Probes) (i n : ℕ) → Sleeps probes → probes.elapsed i ≤ probes.elapsed (n + i)
elapsed_mono probes i zero sleeps = grind arith
elapsed_mono probes i (suc n) sleeps =
    ground (arith, elapsed_mono probes i n sleeps, sleeps (n + i))

-- A wait that reports a failure found every probe within the timeout running.
pub wait_halt-failed :
    (probes : Probes) (timeout fuel i n : ℕ)
    → Sleeps probes
    → wait_halt probes timeout fuel i ≡ some did_not_complete
    → probes.elapsed (n + i) < timeout * 1000
    → probes.running (n + i) ≡ true
unfolding wait_halt
wait_halt-failed probes timeout zero i n sleeps failed within = cc
wait_halt-failed probes timeout (suc fuel) i zero sleeps failed within = ground arith
wait_halt-failed probes timeout (suc fuel) i (suc n) sleeps failed within = ground (
  arith,
  wait_halt-failed probes timeout fuel (suc i) n sleeps,
  elapsed_mono probes i (suc n) sleeps,
)

completed_at :
    (probes : Probes) (timeout fuel i : ℕ) (b : Bool)
    → probes.running i ≡ b
    → wait_halt probes timeout (suc fuel) i ≡ some completed
    → (wait_halt probes timeout fuel (suc i) ≡ some completed
        → (j : ℕ) × (probes.running j ≡ false))
    → (j : ℕ) × (probes.running j ≡ false)
unfolding wait_halt
completed_at probes timeout fuel i false at done later = (i, at)
completed_at probes timeout fuel i true at done later = later (ground arith)

-- A wait that reports success met a probe that found nothing running.
pub wait_halt-completed :
    (probes : Probes) (timeout fuel i : ℕ)
    → wait_halt probes timeout fuel i ≡ some completed
    → (j : ℕ) × (probes.running j ≡ false)
unfolding wait_halt
wait_halt-completed probes timeout zero i done = cc
wait_halt-completed probes timeout (suc fuel) i done =
    completed_at probes timeout fuel i (probes.running i) refl done
      (wait_halt-completed probes timeout fuel (suc i))

-- What a thread that waits for a halt leaves: an inactive status that is a success if some probe
-- found nothing running, and a failure if all that came within the timeout found something.
abbrev Reports : Probes → ℕ → Option Reboot → Type 0
Reports probes timeout o =
    (r : Reboot) × (o ≡ some r)
    × (r.reboot_status_flag.active ≡ false)
    × (((r.reboot_status_flag.status ≡ status_success) × ((j : ℕ) × (probes.running j ≡ false)))
        ⊎ ((r.reboot_status_flag.status ≡ status_failure)
            × ((j : ℕ) → probes.elapsed j < timeout * 1000 → probes.running j ≡ true)))

all_running :
    (probes : Probes) (timeout fuel : ℕ)
    → Sleeps probes
    → wait_halt probes timeout fuel 0 ≡ some did_not_complete
    → (j : ℕ) → probes.elapsed j < timeout * 1000
    → probes.running j ≡ true
all_running probes timeout fuel sleeps e j =
    subst (λ k. probes.elapsed k < timeout * 1000 → probes.running k ≡ true) (omega arith)
      (wait_halt-failed probes timeout fuel 0 j sleeps e)

after_halt-Reports :
    (probes : Probes) (timeout fuel now : ℕ) (v : Value) (r : Reboot) (o : Option Halted)
    → Sleeps probes
    → o ≢ none
    → wait_halt probes timeout fuel 0 ≡ o
    → Reports probes timeout (after_halt v now o r)
unfolding populate_reboot_status_flag
after_halt-Reports probes timeout fuel now v r none sleeps ne e = elim (ne refl) [ ]
after_halt-Reports probes timeout fuel now v r (some completed) sleeps ne e =
    (_, refl, refl, inl (refl, wait_halt-completed probes timeout fuel 0 e))
after_halt-Reports probes timeout fuel now v r (some did_not_complete) sleeps ne e =
    (_, refl, refl, inr (refl, all_running probes timeout fuel sleeps e))

run_command-Reports :
    (run : Run) (fuel : ℕ) (v : Value) (r : Reboot) (o : Option Command)
    → o ≢ none
    → is_halt_boot v ≡ true
    → run.command_fails ≡ false
    → Sleeps run.probes
    → wait_halt run.probes (get_dpu_halt_services_timeout run.platform) fuel 0 ≢ none
    → Reports run.probes (get_dpu_halt_services_timeout run.platform) (run_command run fuel v o r)
run_command-Reports run fuel v r none ne halt works sleeps ends = elim (ne refl) [ ]
run_command-Reports run fuel v r (some c) ne halt works sleeps ends =
    let timeout = get_dpu_halt_services_timeout run.platform in
    rw (works, halt)
      (after_halt-Reports run.probes timeout fuel run.end_time v r
        (wait_halt run.probes timeout fuel 0) sleeps ends refl)

command_of-halt : (v : Value) → is_halt_boot v ≡ true → command_of v ≢ none
command_of-halt v halt e = ground arith

module _ (probes : Probes) (timeout : ℕ) (o : Option Reboot) where
  Reports-either :
      Reports probes timeout o
      → (r : Reboot) × (o ≡ some r)
        × (r.reboot_status_flag.active ≡ false)
        × ((r.reboot_status_flag.status ≡ status_success)
            ⊎ (r.reboot_status_flag.status ≡ status_failure))
  Reports-either (r, e, off, inl (s, h)) = (r, e, off, inl s)
  Reports-either (r, e, off, inr (s, h)) = (r, e, off, inr s)

  Reports-failure :
      {r2 : Reboot}
      → o ≡ some r2
      → r2.reboot_status_flag.status ≡ status_failure
      → Reports probes timeout o
      → (j : ℕ) → probes.elapsed j < timeout * 1000
      → probes.running j ≡ true
  Reports-failure is failure (r, e, off, inl (s, h)) = λ j within. cc
  Reports-failure is failure (r, e, off, inr (s, h)) = h

  Reports-success :
      {r2 : Reboot}
      → o ≡ some r2
      → r2.reboot_status_flag.status ≡ status_success
      → Reports probes timeout o
      → (j : ℕ) × (probes.running j ≡ false)
  Reports-success is success (r, e, off, inl (s, h)) = h
  Reports-success is success (r, e, off, inr (s, h)) = cc

execute_reboot-Reports :
    (run : Run) (fuel : ℕ) (v : Value) (r : Reboot)
    → is_halt_boot v ≡ true
    → run.command_fails ≡ false
    → Sleeps run.probes
    → get_dpu_halt_services_timeout run.platform ≤ 5 * fuel
    → Reports run.probes
        (get_dpu_halt_services_timeout run.platform)
        (execute_reboot run (suc fuel) v r)
unfolding execute_reboot
execute_reboot-Reports run fuel v r halt works sleeps enough =
    run_command-Reports run (suc fuel) v r (command_of v) (command_of-halt v halt) halt works sleeps
      (wait_halt-ends run.probes (get_dpu_halt_services_timeout run.platform) fuel 0 sleeps
        (omega arith))

-- With fuel for a probe every five seconds until the timeout of the platform, a thread whose halt
-- command succeeds ends, and leaves an inactive status that is a success or a failure.
pub execute_reboot-ends :
    (run : Run) (fuel : ℕ) (v : Value) (r : Reboot)
    → is_halt_boot v ≡ true
    → run.command_fails ≡ false
    → Sleeps run.probes
    → get_dpu_halt_services_timeout run.platform ≤ 5 * fuel
    → (r2 : Reboot) × (execute_reboot run (suc fuel) v r ≡ some r2)
      × (r2.reboot_status_flag.active ≡ false)
      × ((r2.reboot_status_flag.status ≡ status_success)
          ⊎ (r2.reboot_status_flag.status ≡ status_failure))
execute_reboot-ends run fuel v r halt works sleeps enough =
    Reports-either run.probes (get_dpu_halt_services_timeout run.platform)
      (execute_reboot run (suc fuel) v r)
      (execute_reboot-Reports run fuel v r halt works sleeps enough)

-- With fuel for a probe every five seconds until the timeout of the platform, a halt whose command
-- succeeds and that the thread leaves as a failure was still running at every probe within the
-- timeout.
pub execute_reboot-failure :
    (run : Run) (fuel : ℕ) (v : Value) (r r2 : Reboot) (j : ℕ)
    → is_halt_boot v ≡ true
    → run.command_fails ≡ false
    → Sleeps run.probes
    → get_dpu_halt_services_timeout run.platform ≤ 5 * fuel
    → execute_reboot run (suc fuel) v r ≡ some r2
    → r2.reboot_status_flag.status ≡ status_failure
    → run.probes.elapsed j < get_dpu_halt_services_timeout run.platform * 1000
    → run.probes.running j ≡ true
execute_reboot-failure run fuel v r r2 j halt works sleeps enough is failure within =
    Reports-failure run.probes (get_dpu_halt_services_timeout run.platform)
      (execute_reboot run (suc fuel) v r) is failure
      (execute_reboot-Reports run fuel v r halt works sleeps enough) j within

-- With fuel for a probe every five seconds until the timeout of the platform, a halt whose command
-- succeeds and that the thread leaves as a success was not running at some probe.
pub execute_reboot-success :
    (run : Run) (fuel : ℕ) (v : Value) (r r2 : Reboot)
    → is_halt_boot v ≡ true
    → run.command_fails ≡ false
    → Sleeps run.probes
    → get_dpu_halt_services_timeout run.platform ≤ 5 * fuel
    → execute_reboot run (suc fuel) v r ≡ some r2
    → r2.reboot_status_flag.status ≡ status_success
    → (j : ℕ) × (run.probes.running j ≡ false)
execute_reboot-success run fuel v r r2 halt works sleeps enough is success =
    Reports-success run.probes (get_dpu_halt_services_timeout run.platform)
      (execute_reboot run (suc fuel) v r) is success
      (execute_reboot-Reports run fuel v r halt works sleeps enough)
