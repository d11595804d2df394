-- ===== src/Tests/DebugService.antt =====
-- host_modules/debug_service.py and host_modules/systemd_service.py at concrete inputs.
use sonic_host_services.Base.{◌≡◌, refl, false, some, none, [], ◌∷◌, List}
use sonic_host_services.Base.Text.{codes}
use sonic_host_services.Host.Systemd.{stop_service, stop, is_one_of}
use sonic_host_services.Host.DebugService.{
  Round, Process, data_read, raises, no_errors, both_fds, stream, stdout, close_master,
  close_stderr, terminate, signalled, finally,
}

-- Data, and then an error of the terminal.
abbrev rounds : List Round
rounds =
    record { is_cancelled = false; master = data_read (codes "a"); errors = no_errors }
    ∷ record { is_cancelled = false; master = raises; errors = no_errors }
    ∷ []

abbrev running : Process
running = record { polled = none; terminated = some (signalled 15); killed = signalled 9 }

streamed :
    stream rounds both_fds running
    ≡ some (stdout (codes "a") ∷ close_master ∷ close_stderr ∷ terminate ∷ [], signalled 15)
unfolding stream finally
streamed = refl

stopped : (stop_service (λ calls call. (0, [])) "snmp").0 ≡ stop "snmp" ∷ []
unfolding stop_service is_one_of
stopped = refl
