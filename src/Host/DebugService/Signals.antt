-- ===== src/Host/DebugService/Signals.antt =====
-- The loop signals what it reads, and then cleans up.
use sonic_host_services.Base.{◌≡◌, Bool, false, not, ◌&&◌, List}
use sonic_host_services.Base.Text.{Text}
use sonic_host_services.Host.DebugService.Told.{Told, signals_of}
use sonic_host_services.Host.DebugService.{
  if_watched, is_errors_end, Action, MasterRead, idle, StderrRead, no_errors, Round, Fds, Process,
  is_raising, is_master_end,
}

-- What the loop reads in a round.
abbrev master_read : Bool → MasterRead → MasterRead
master_read watched mr = if_watched watched mr idle

abbrev errors_read_of : Bool → StderrRead → StderrRead
errors_read_of watched er = if_watched watched er no_errors

abbrev next_master : Bool → MasterRead → Bool
next_master watched mr = watched && not (is_master_end (master_read watched mr))

abbrev next_errors : Bool → StderrRead → Bool
next_errors watched er = watched && not (is_errors_end (errors_read_of watched er))

abbrev round_of : Bool → MasterRead → StderrRead → Round
round_of c mr er = record { is_cancelled = c; master = mr; errors = er }

module _ (mr : MasterRead) (er : StderrRead) (rounds : List Round) (fds : Fds) (p : Process)
    (reads : is_raising (master_read fds.master mr) ≡ false) where
  abbrev round_signals : List Action
  round_signals = signals_of (master_read fds.master mr) (errors_read_of fds.errors er)

  abbrev next_fds : Fds
  next_fds = record { master = next_master fds.master mr; errors = next_errors fds.errors er }
