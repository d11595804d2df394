-- ===== src/Host/Reboot/Ends.antt =====
-- How the status comes back from an active reboot, and when it does not.
use Prim.Native.Nat.{zero, suc}
use sonic_host_services.Base.{
  ℕ, Bool, true, false, Option, none, some, List, [], ◌∷◌, ◌++◌, ◌≡◌, ◌≢◌, inl, inr, arith, refl,
  sym, ◌∙◌, subst, if◌then◌else◌,
}
use sonic_host_services.Host.Reboot.{
  no_message, previous_ongoing, Value, Request, Reboot, System, Reply, Run, Command, Halted,
  completed, did_not_complete, wait_halt, execute_reboot, run_command, after_halt, command_of,
  issue_reboot, issue_request, start, validate_reboot_request, get_dpu_halt_services_timeout,
  populate_reboot_status_flag,
}
use sonic_host_services.Host.Reboot.Status.{
  Event, requested, ended, Reachable, started, continued, Guarded, Supported, reachable-Guarded,
  counted,
}

after_halt-inactive :
    (v : Value) (now : ℕ) (o : Option Halted) (r r2 : Reboot)
    → after_halt v now o r ≡ some r2
    → r2.reboot_status_flag.active ≡ false
unfolding populate_reboot_status_flag
after_halt-inactive v now none r r2 h = cc
after_halt-inactive v now (some completed) r r2 h = cc
after_halt-inactive v now (some did_not_complete) r r2 h = cc

run_command-inactive :
    (run : Run) (fuel : ℕ) (v : Value) (o : Option Command) (r r2 : Reboot)
    → o ≢ none
    → run_command run fuel v o r ≡ some r2
    → r2.reboot_status_flag.active ≡ false
unfolding populate_reboot_status_flag
run_command-inactive run fuel v none r r2 ne h = let none_now = ne refl in ground arith
run_command-inactive run fuel v (some c) r r2 ne h = ground (
  arith,
  after_halt-inactive v run.end_time
      (wait_halt run.probes (get_dpu_halt_services_timeout run.platform) fuel 0) r r2,
)

command_of-some : (v : Value) → Supported v → command_of v ≢ none
command_of-some v sup e = ground arith

-- A thread that ends leaves the status inactive.
execute_reboot-inactive :
    (run : Run) (fuel : ℕ) (v : Value) (r r2 : Reboot)
    → Supported v
    → execute_reboot run fuel v r ≡ some r2
    → r2.reboot_status_flag.active ≡ false
unfolding execute_reboot
execute_reboot-inactive run fuel v r r2 sup h =
    run_command-inactive run fuel v (command_of v) r r2 (command_of-some v sup) h

-- While no thread reboots the status is inactive.
abbrev pub Paired : System → Type 0
Paired s = s.threads ≡ [] → s.service.reboot_status_flag.active ≡ false

start-Paired :
    (now : ℕ) (method message : Option Value) (reply : Reply) (s : System)
    → Paired s
    → Paired (start now true method message reply s).0
start-Paired now none message reply s p = p
start-Paired now (some v) message (some (zero, m)) s p = λ e. cc
start-Paired now (some v) message none s p = p
start-Paired now (some v) message (some (suc n, m)) s p = p

issue_request-Paired :
    (now : ℕ) (request : Option Request) (s : System)
    → Paired s
    → Paired (issue_request now true request s).0
issue_request-Paired now none s p = p
issue_request-Paired now (some request) s p =
    start-Paired now request.method request.message (validate_reboot_request request) s p

if-Paired :
    (b : Bool) (s t : System × Reply) → Paired s.0 → Paired t.0 → Paired (if b then s else t).0
if-Paired true s t h k = h
if-Paired false s t h k = k

issue_reboot-Paired :
    (now : ℕ) (request : Option Request) (s : System)
    → Paired s
    → Paired (issue_reboot now true request s).0
unfolding issue_reboot
issue_reboot-Paired now request s p =
    if-Paired s.service.reboot_status_flag.active (counted s, some (1, previous_ongoing))
      (issue_request now true request (counted s)) p
      (issue_request-Paired now request (counted s) p)

the_one : (before after : List Value) (v w : Value) → w ∷ [] ≡ before ++ v ∷ after → w ≡ v
the_one [] after v w e = cc
the_one (x ∷ []) after v w e = cc
the_one (x ∷ y ∷ before) after v w e = cc

inhabited : (before after : List Value) (v : Value) → before ++ v ∷ after ≢ []
inhabited [] after v e = cc
inhabited (x ∷ before) after v e = cc

event-Paired : {s t : System} → Guarded s → Paired s → Event true s t → Paired t
event-Paired {s = s} g p (requested now starts request h) =
    subst (λ b. Paired (issue_reboot now b request s).0) (sym (h refl))
      (issue_reboot-Paired now request s p)
event-Paired (inl idle) p (ended before after v run fuel at runs) =
    elim (inhabited before after v (sym at ∙ idle)) [ ]
event-Paired {s = s} (inr (w, one, active, sup)) p (ended {r = r} before after v run fuel at runs) =
    λ e.
      execute_reboot-inactive run fuel v s.service r
        (subst Supported (the_one before after v w (sym one ∙ at)) sup) runs

reachable-Paired : {s : System} → Reachable true s → Paired s
reachable-Paired started = λ e. refl
reachable-Paired (continued r e) = event-Paired (reachable-Guarded r) (reachable-Paired r) e

-- If every thread can start, then in every reachable state without a thread the status is
-- inactive.
pub reachable-inactive :
    (s : System) → Reachable true s → s.threads ≡ [] → s.service.reboot_status_flag.active ≡ false
reachable-inactive s r = reachable-Paired r

-- A state whose status is active without a thread.
abbrev pub Stuck : System → Type 0
Stuck s = (s.threads ≡ []) × (s.service.reboot_status_flag.active ≡ true)

if-Stuck : (b : Bool) (s t : System × Reply) → b ≡ true → Stuck s.0 → Stuck (if b then s else t).0
if-Stuck true s t on h = h
if-Stuck false s t on h = cc

issue_reboot-Stuck :
    (now : ℕ) (request : Request) (v : Value) (s : System)
    → Paired s
    → s.threads ≡ []
    → request.method ≡ some v
    → validate_reboot_request request ≡ some (0, no_message)
    → Stuck (issue_reboot now false (some request) s).0
unfolding issue_reboot populate_reboot_status_flag
issue_reboot-Stuck now request v s p idle method valid =
    let off = p idle in rw (off, valid, method) (idle, refl)

event-Stuck : {all : Bool} {s t : System} → Stuck s → Event all s t → Stuck t
unfolding issue_reboot
event-Stuck {s = s} (idle, active) (requested now starts request h) =
    if-Stuck s.service.reboot_status_flag.active (counted s, some (1, previous_ongoing))
      (issue_request now starts request (counted s)) active (idle, active)
event-Stuck (idle, active) (ended before after v run fuel at runs) =
    elim (inhabited before after v (sym at ∙ idle)) [ ]

-- The states that events lead to from a given one.
pub data Later (s : System) : System → Type 0 where
  now_ : Later s s
  then_ : {t u : System} → Later s t → Event true t u → Later s u

Later-Stuck : {s t : System} → Stuck s → Later s t → Stuck t
Later-Stuck stuck now_ = stuck
Later-Stuck stuck (then_ l e) = event-Stuck (Later-Stuck stuck l) e

refused :
    (now : ℕ) (starts : Bool) (request : Option Request) (s : System)
    → s.service.reboot_status_flag.active ≡ true
    → (issue_reboot now starts request s).1 ≡ some (1, previous_ongoing)
unfolding issue_reboot
refused now starts request s active = rw active refl

-- In a state without a thread, whose status is then inactive, let a request pass the validation
-- and its thread not start. Then every request after it is refused as if a reboot were ongoing,
-- whatever events come between, though every thread of theirs could start.
pub issue_reboot_refused :
    (now later : ℕ) (starts : Bool) (request : Request) (next : Option Request) (v : Value)
    (s t : System)
    → Paired s
    → s.threads ≡ []
    → request.method ≡ some v
    → validate_reboot_request request ≡ some (0, no_message)
    → Later (issue_reboot now false (some request) s).0 t
    → (issue_reboot later starts next t).1 ≡ some (1, previous_ongoing)
issue_reboot_refused now later starts request next v s t p idle method valid l =
    refused later starts next t
      (Later-Stuck (issue_reboot-Stuck now request v s p idle method valid) l).1
