-- ===== src/Host/Reboot/Status.antt =====
-- The requests, the threads and the status of reboots, over any sequence of events.
use Prim.Native.Nat.{zero, suc}
use sonic_host_services.Base.{
  ℕ, Bool, true, false, Option, none, some, List, [], ◌∷◌, ◌++◌, ◌≡◌, ◌⊎◌, inl, inr, ◌||◌, arith,
  refl, ap, sym, ◌∙◌, subst, if◌then◌else◌,
}
use sonic_host_services.Host.Reboot.{
  previous_ongoing, number, bool, text, other, container, Value, Request, Reboot, System, Reply,
  Run, execute_reboot, is_halt_boot, is_cold_boot, is_warm_boot, issue_reboot, issue_request, start,
  validate_reboot_request, check_method, populate_reboot_status_flag, init,
}

-- Whether a value is one of the methods that the module supports.
abbrev pub Supported : Value → Type 0
Supported v = (is_cold_boot v || is_halt_boot v || is_warm_boot v) ≡ true

abbrev code_of : Reply → ℕ
code_of none = 1
code_of (some (n, m)) = n

check_method-Supported :
    (v : Value) (delay : Option Value) → code_of (check_method (some v) delay) ≡ 0 → Supported v
check_method-Supported container delay h = cc
check_method-Supported (number n) delay h = ground arith
check_method-Supported (bool b) delay h = ground arith
check_method-Supported (text t) delay h = ground arith
check_method-Supported other delay h = cc

supported :
    (request : Request) (v : Value)
    → request.method ≡ some v
    → code_of (validate_reboot_request request) ≡ 0
    → Supported v
unfolding validate_reboot_request
supported request v h k =
    check_method-Supported v request.delay
      (subst (λ m. code_of (check_method m request.delay) ≡ 0) h k)

-- The events of the module: a request, with the time, whether a thread can start and what the
-- request says, and the end of a thread. With `true`, every thread can start.
pub data Event : Bool → System → System → Type 0 where
  requested :
      {all : Bool} {s : System} (now : ℕ) (starts : Bool) (request : Option Request)
      → (all ≡ true → starts ≡ true)
      → Event all s (issue_reboot now starts request s).0
  ended :
      {all : Bool} {s : System} {r : Reboot} (before after : List Value) (v : Value) (run : Run)
      (fuel : ℕ)
      → s.threads ≡ before ++ v ∷ after
      → execute_reboot run fuel v s.service ≡ some r
      → Event all s record { service = r; threads = before ++ after }

-- The states of the module from its start on.
pub data Reachable (all : Bool) : System → Type 0 where
  started : Reachable all record { service = init; threads = [] }
  continued : {s t : System} → Reachable all s → Event all s t → Reachable all t

-- At most one thread reboots, with a supported method and while the status is active.
abbrev pub Guarded : System → Type 0
Guarded s =
    (s.threads ≡ [])
    ⊎ ((v : Value) × (s.threads ≡ v ∷ [])
        × (s.service.reboot_status_flag.active ≡ true)
        × Supported v)

start-Guarded :
    (now : ℕ) (starts : Bool) (method message : Option Value) (reply : Reply) (s : System)
    → ((v : Value) → method ≡ some v → code_of reply ≡ 0 → Supported v)
    → s.threads ≡ []
    → Guarded (start now starts method message reply s).0
unfolding populate_reboot_status_flag
start-Guarded now starts none message reply s sup idle = inl idle
start-Guarded now true (some v) message (some (zero, m)) s sup idle =
    inr (v, ap (λ vs. v ∷ vs) idle, refl, sup v refl refl)
start-Guarded now false (some v) message (some (zero, m)) s sup idle = inl idle
start-Guarded now starts (some v) message none s sup idle = inl idle
start-Guarded now starts (some v) message (some (suc n, m)) s sup idle = inl idle

issue_request-Guarded :
    (now : ℕ) (starts : Bool) (request : Option Request) (s : System)
    → s.threads ≡ []
    → Guarded (issue_request now starts request s).0
unfolding validate_reboot_request
issue_request-Guarded now starts none s idle = inl idle
issue_request-Guarded now starts (some request) s idle =
    start-Guarded now starts request.method request.message (validate_reboot_request request) s
      (supported request) idle

false_true : {A : Type 0} {b : Bool} → b ≡ false → b ≡ true → A
false_true off on = cc

if-Guarded :
    (b : Bool) (s t : System × Reply)
    → (b ≡ true → Guarded s.0)
    → (b ≡ false → Guarded t.0)
    → Guarded (if b then s else t).0
if-Guarded true s t h k = h refl
if-Guarded false s t h k = k refl

abbrev pub counted : System → System
counted s = record s { service = record s.service { reboot_count = suc s.service.reboot_count } }

issue_reboot-Guarded :
    (now : ℕ) (starts : Bool) (request : Option Request) (s : System)
    → Guarded s
    → Guarded (issue_reboot now starts request s).0
unfolding issue_reboot
issue_reboot-Guarded now starts request s (inl idle) =
    if-Guarded s.service.reboot_status_flag.active (counted s, some (1, previous_ongoing))
      (issue_request now starts request (counted s)) (λ on. inl idle)
      (λ off. issue_request-Guarded now starts request (counted s) idle)
issue_reboot-Guarded now starts request s (inr (v, one, active, sup)) =
    if-Guarded s.service.reboot_status_flag.active (counted s, some (1, previous_ongoing))
      (issue_request now starts request (counted s)) (λ on. inr (v, one, active, sup))
      (λ off. false_true off active)

alone :
    (before after : List Value) (v w : Value) → w ∷ [] ≡ before ++ v ∷ after → before ++ after ≡ []
alone [] [] v w e = refl
alone [] (x ∷ after) v w e = cc
alone (x ∷ []) after v w e = cc
alone (x ∷ y ∷ before) after v w e = cc

nowhere : (before after : List Value) (v : Value) → [] ≡ before ++ v ∷ after → before ++ after ≡ []
nowhere [] after v e = cc
nowhere (x ∷ before) after v e = cc

event-Guarded : {all : Bool} {s t : System} → Guarded s → Event all s t → Guarded t
event-Guarded {s = s} g (requested now starts request h) =
    issue_reboot-Guarded now starts request s g
event-Guarded (inl idle) (ended before after v run fuel at runs) =
    inl (nowhere before after v (sym idle ∙ at))
event-Guarded (inr (w, one, active, sup)) (ended before after v run fuel at runs) =
    inl (alone before after v w (sym one ∙ at))

-- In every reachable state at most one thread reboots, with a supported method and while the
-- status is active.
pub reachable-Guarded : {all : Bool} {s : System} → Reachable all s → Guarded s
reachable-Guarded started = inl refl
reachable-Guarded (continued r e) = event-Guarded (reachable-Guarded r) e
