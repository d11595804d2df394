-- ===== src/Host/DebugService.antt =====
-- host_modules/debug_service.py: runs a command and streams what it writes.
pub mod Told
pub mod Signals
use sonic_host_services.Base.{
  append_assoc, refl, ap, sym, ◌∙◌, ◌∙◌, inr, ap, inl, All-append, ◌⊎◌, All, ◌≡◌, ℕ, Bool, true,
  false, not, ◌&&◌, ◌||◌, Option, none, some, List, [], ◌∷◌, ◌++◌, if◌then◌else◌,
}
use sonic_host_services.Base.Text.{Text}

-- The code of a process: it ended by itself, or by a signal.
pub data Code : Type 0 where
  exited signalled : ℕ → Code

-- What the method does: signals to the client, and the end of the process.
pub data Action : Type 0 where
  stdout stderr : Text → Action
  close_master close_stderr terminate kill : Action

-- A read of the terminal: nothing is ready, data, its end (EIO), or another OSError.
pub data MasterRead : Type 0 where
  idle at_end raises : MasterRead
  data_read : Text → MasterRead

-- A read of the errors, whose end is an empty text.
pub data StderrRead : Type 0 where
  no_errors errors_end : StderrRead
  errors_read : Text → StderrRead

-- What one select brings.
pub record Round : Type 0 where
  pub is_cancelled : Bool
  pub master : MasterRead
  pub errors : StderrRead

-- The descriptors that are still watched.
pub record Fds : Type 0 where
  pub master : Bool
  pub errors : Bool

-- The process at the end: its code if it has one, the code within five seconds of terminate, and the
-- code after kill.
pub record Process : Type 0 where
  pub polled : Option Code
  pub terminated : Option Code
  pub killed : Code

abbrev pub after_terminate : Option Code → Code → List Action × Code
after_terminate (some rc) killed = ([], rc)
after_terminate none killed = (kill ∷ [], killed)

abbrev pub after_poll : Option Code → Process → List Action × Code
after_poll (some rc) p = ([], rc)
after_poll none p =
    let (actions, rc) = after_terminate p.terminated p.killed in (terminate ∷ actions, rc)

-- The `finally` block. Its return also ends an exception of the loop.
unfoldable pub finally : Process → List Action × Code
finally p = let (actions, rc) = after_poll p.polled p in (close_master ∷ close_stderr ∷ actions, rc)

abbrev pub master_signal : MasterRead → List Action
master_signal (data_read text) = stdout text ∷ []
master_signal _ = []

abbrev pub errors_signal : StderrRead → List Action
errors_signal (errors_read text) = stderr text ∷ []
errors_signal _ = []

abbrev pub is_raising : MasterRead → Bool
is_raising raises = true
is_raising _ = false

abbrev pub is_master_end : MasterRead → Bool
is_master_end at_end = true
is_master_end _ = false

abbrev pub is_errors_end : StderrRead → Bool
is_errors_end errors_end = true
is_errors_end _ = false

abbrev pub if_watched {ℓ} : {A : Type ℓ} → Bool → A → A → A
if_watched watched read nothing = if watched then read else nothing

abbrev pub prepend : List Action → Option (List Action × Code) → Option (List Action × Code)
prepend signals none = none
prepend signals (some (actions, rc)) = some (signals ++ actions, rc)

-- The loop over the rounds; `none` if it still waits after the last one.
unfoldable pub stream : List Round → Fds → Process → Option (List Action × Code)
stream [] fds p = none
stream (r ∷ rounds) fds p =
    let master = if_watched fds.master r.master idle in
    let errors = if_watched fds.errors r.errors no_errors in
    let signals = master_signal master ++ errors_signal errors in
    let fds1 : Fds = record {
      master = fds.master && not (is_master_end master);
      errors = fds.errors && not (is_errors_end errors);
    } in
    let rest = stream rounds fds1 p in
    if r.is_cancelled || is_raising master
    then some (finally p)
    else if not (fds1.master || fds1.errors)
    then some (signals ++ (finally p).0, (finally p).1)
    else prepend signals rest

abbrev pub both_fds : Fds
both_fds = record { master = true; errors = true }

-- How the future of the thread ends: its result, a timeout, or an exception from before the loop.
pub data Future : Type 0 where
  finished : Code → Future
  timed_out raised : Future

pub data Reply : Type 0 where
  exited_with : Code → Reply
  etimedout eio : Reply

-- `RunCommand`: its reply, and whether it cancels the thread.
abbrev pub run_command : Future → Reply × Bool
run_command (finished rc) = (exited_with rc, false)
run_command timed_out = (etimedout, true)
run_command raised = (eio, true)
