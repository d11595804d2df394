-- ===== src/Host/DebugService/Told.antt =====
-- What the client of a command gets, and what is left of the command: the specification of a stream.
use sonic_host_services.Base.{
  append_assoc, ◌∙◌, sym, All-append, refl, ap, inr, inl, ◌⊎◌, All, ◌≡◌, Bool, true, false, not,
  ◌&&◌, ◌||◌, Option, none, some, List, [], ◌∷◌, ◌++◌, if◌then◌else◌,
}
use sonic_host_services.Base.Text.{Text}
use sonic_host_services.Host.DebugService.{
  errors_signal, prepend, master_signal, Code, Action, stdout, stderr, close_master, close_stderr,
  terminate, kill, MasterRead, idle, at_end, raises, data_read, StderrRead, no_errors, errors_end,
  errors_read, Round, Fds, Process, finally, after_poll, after_terminate, is_raising, is_master_end,
}

-- The rounds whose reads are signalled: those before a cancellation, and before an error of the
-- terminal while it is watched.
abbrev pub live : Bool → List Round → List Round
live watched [] = []
live watched (r ∷ rounds) =
    let rest = live (watched && not (is_master_end r.master)) rounds in
    if r.is_cancelled || watched && is_raising r.master then [] else r ∷ rest

-- The data of a descriptor until its end.
abbrev pub stdout_texts : List Round → List Text
stdout_texts [] = []
stdout_texts (r ∷ rounds) = of_read r.master (stdout_texts rounds)
  where
    of_read : MasterRead → List Text → List Text
    of_read (data_read text) rest = text ∷ rest
    of_read at_end rest = []
    of_read idle rest = rest
    of_read raises rest = rest

abbrev pub stderr_texts : List Round → List Text
stderr_texts [] = []
stderr_texts (r ∷ rounds) = of_read r.errors (stderr_texts rounds)
  where
    of_read : StderrRead → List Text → List Text
    of_read (errors_read text) rest = text ∷ rest
    of_read errors_end rest = []
    of_read no_errors rest = rest

-- The texts that are signalled.
abbrev pub stdouts : List Action → List Text
stdouts [] = []
stdouts (stdout text ∷ actions) = text ∷ stdouts actions
stdouts (_ ∷ actions) = stdouts actions

abbrev pub stderrs : List Action → List Text
stderrs [] = []
stderrs (stderr text ∷ actions) = text ∷ stderrs actions
stderrs (_ ∷ actions) = stderrs actions

-- Both descriptors are closed, and the process had ended, or ends after it is terminated, or is
-- killed as it did not end in time.
abbrev pub Cleaned : Process → List Action → Code → Type 0
Cleaned p actions rc =
    ((p.polled ≡ some rc) × (actions ≡ close_master ∷ close_stderr ∷ []))
    ⊎ ((p.polled ≡ none)
        × (p.terminated ≡ some rc)
        × (actions ≡ close_master ∷ close_stderr ∷ terminate ∷ []))
    ⊎ ((p.polled ≡ none)
        × (p.terminated ≡ none)
        × (p.killed ≡ rc)
        × (actions ≡ close_master ∷ close_stderr ∷ terminate ∷ kill ∷ []))

abbrev pub is_signal : Action → Bool
is_signal (stdout text) = true
is_signal (stderr text) = true
is_signal _ = false

abbrev pub if_any : Bool → List Text → List Text
if_any watched texts = if watched then texts else []

-- The texts are signalled, and then everything is cleaned up.
pub record Told (p : Process) (outs errs : List Text) (o : Option (List Action × Code))
    : Type 0 where
  pub signals : List Action
  pub cleanup : List Action
  pub rc : Code
  pub ended : o ≡ some (signals ++ cleanup, rc)
  pub are_signals : All (λ a. is_signal a ≡ true) signals
  pub output : stdouts signals ≡ outs
  pub errors : stderrs signals ≡ errs
  pub cleaned : Cleaned p cleanup rc

-- The texts that are read while their descriptor is watched, until the loop is stopped.
abbrev pub outs_of : List Round → Fds → List Text
outs_of rounds fds = if_any fds.master (stdout_texts (live fds.master rounds))

abbrev pub errs_of : List Round → Fds → List Text
errs_of rounds fds = if_any fds.errors (stderr_texts (live fds.master rounds))

abbrev pub Finished : List Round → Fds → Process → Option (List Action × Code) → Type 0
Finished rounds fds p o = Told p (outs_of rounds fds) (errs_of rounds fds) o

-- The loop still waits after the last round and was not cancelled, or it has ended.
abbrev pub Streams : List Round → Fds → Process → Option (List Action × Code) → Type 0
Streams rounds fds p o =
    ((o ≡ none) × All (λ r. r.is_cancelled ≡ false) rounds) ⊎ Finished rounds fds p o

finally-Cleaned : (p : Process) → Cleaned p (finally p).0 (finally p).1
unfolding finally
finally-Cleaned p = of_poll p.polled refl
  where
    of_poll :
        (o : Option Code)
        → p.polled ≡ o
        → Cleaned p (close_master ∷ close_stderr ∷ (after_poll o p).0) (after_poll o p).1
    of_poll (some rc) e = inl (e, refl)
    of_poll none e = of_terminate p.terminated refl
      where
        of_terminate :
            (t : Option Code)
            → p.terminated ≡ t
            → Cleaned p
                (close_master ∷ close_stderr ∷ terminate ∷ (after_terminate t p.killed).0)
                (after_terminate t p.killed).1
        of_terminate (some rc) f = inr (inl (e, f, refl))
        of_terminate none f = inr (inr (e, f, refl, refl))

stdouts-append : (xs ys : List Action) → stdouts (xs ++ ys) ≡ stdouts xs ++ stdouts ys
stdouts-append [] ys = refl
stdouts-append (stdout text ∷ xs) ys = ap (λ l. text ∷ l) (stdouts-append xs ys)
stdouts-append (stderr text ∷ xs) ys = stdouts-append xs ys
stdouts-append (close_master ∷ xs) ys = stdouts-append xs ys
stdouts-append (close_stderr ∷ xs) ys = stdouts-append xs ys
stdouts-append (terminate ∷ xs) ys = stdouts-append xs ys
stdouts-append (kill ∷ xs) ys = stdouts-append xs ys

stderrs-append : (xs ys : List Action) → stderrs (xs ++ ys) ≡ stderrs xs ++ stderrs ys
stderrs-append [] ys = refl
stderrs-append (stderr text ∷ xs) ys = ap (λ l. text ∷ l) (stderrs-append xs ys)
stderrs-append (stdout text ∷ xs) ys = stderrs-append xs ys
stderrs-append (close_master ∷ xs) ys = stderrs-append xs ys
stderrs-append (close_stderr ∷ xs) ys = stderrs-append xs ys
stderrs-append (terminate ∷ xs) ys = stderrs-append xs ys
stderrs-append (kill ∷ xs) ys = stderrs-append xs ys

pub master_signal-All : (r : MasterRead) → All (λ a. is_signal a ≡ true) (master_signal r)
master_signal-All (data_read text) = (refl, tt)
master_signal-All idle = tt
master_signal-All at_end = tt
master_signal-All raises = tt

pub errors_signal-All : (r : StderrRead) → All (λ a. is_signal a ≡ true) (errors_signal r)
errors_signal-All (errors_read text) = (refl, tt)
errors_signal-All no_errors = tt
errors_signal-All errors_end = tt

abbrev pub signals_of : MasterRead → StderrRead → List Action
signals_of mr er = master_signal mr ++ errors_signal er

no_outs : (er : StderrRead) → stdouts (errors_signal er) ≡ []
no_outs (errors_read text) = refl
no_outs no_errors = refl
no_outs errors_end = refl

pub stdouts-signals :
    (mr : MasterRead) (er : StderrRead) → stdouts (signals_of mr er) ≡ stdouts (master_signal mr)
stdouts-signals (data_read text) er = ap (λ l. text ∷ l) (no_outs er)
stdouts-signals idle er = no_outs er
stdouts-signals at_end er = no_outs er
stdouts-signals raises er = no_outs er

pub stderrs-signals :
    (mr : MasterRead) (er : StderrRead) → stderrs (signals_of mr er) ≡ stderrs (errors_signal er)
stderrs-signals (data_read text) er = refl
stderrs-signals idle er = refl
stderrs-signals at_end er = refl
stderrs-signals raises er = refl

-- No text is read of descriptors that are not watched.
pub stop-Told :
    (p : Process) (before : List Action)
    → All (λ a. is_signal a ≡ true) before
    → Told p (stdouts before) (stderrs before) (some (before ++ (finally p).0, (finally p).1))
stop-Told p before h = record {
  signals = before;
  cleanup = (finally p).0;
  rc = (finally p).1;
  ended = refl;
  are_signals = h;
  output = refl;
  errors = refl;
  cleaned = finally-Cleaned p;
}

pub prepend-Told :
    (p : Process) (outs errs : List Text) (before : List Action) (o : Option (List Action × Code))
    → All (λ a. is_signal a ≡ true) before
    → Told p outs errs o
    → Told p (stdouts before ++ outs) (stderrs before ++ errs) (prepend before o)
prepend-Told p outs errs before o h t = record {
  signals = before ++ t.signals;
  cleanup = t.cleanup;
  rc = t.rc;
  ended =
      ap (prepend before) t.ended
      ∙ ap (λ l. some (l, t.rc)) (sym (append_assoc before t.signals t.cleanup));
  are_signals = All-append (λ a. is_signal a ≡ true) before t.signals h t.are_signals;
  output = stdouts-append before t.signals ∙ ap (λ l. stdouts before ++ l) t.output;
  errors = stderrs-append before t.signals ∙ ap (λ l. stderrs before ++ l) t.errors;
  cleaned = t.cleaned;
}
