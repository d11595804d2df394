-- ===== src/Console/Proxy/Writes.antt =====
-- What the proxy tries to write to the state table, over whole runs.
use sonic_host_services.Base.{
  ℕ, ◌≡◌, refl, Bool, true, false, Option, none, some, List, [], ◌∷◌, ◌++◌, arith, if◌then◌else◌,
}
use sonic_host_services.Console.Frame.{Frame}
use sonic_host_services.Console.Filter
use sonic_host_services.Console.Filter.{Event, frame, user_data, has_pending_data}
use sonic_host_services.Console.Proxy.{
  ProxyService, OperState, Effect, state_set, state_cleanup, ptm_write, serial_write, close_all,
  is_state, update_state, Step, Readable, on_frame_received, on_user_data_received, callbacks,
  check_heartbeat_timeout, on_serial_read, on_ptm_read, read_serial, read_ptm, is_some,
  check_filter_timeout, round, run_loop,
}

-- The states that are tried to be written to the table, in order.
abbrev pub writes : List Effect → List OperState
writes [] = []
writes (state_set s ∷ es) = s ∷ writes es
writes (state_cleanup ∷ es) = writes es
writes (ptm_write b ∷ es) = writes es
writes (serial_write b ∷ es) = writes es
writes (close_all ∷ es) = writes es

-- Each state differs from the one before it, the first from `current`.
abbrev pub Alternates : Option OperState → List OperState → Type 0
Alternates current [] = Unit
Alternates current (s ∷ ss) = (is_state s current ≡ false) × Alternates (some s) ss

abbrev pub last_of : Option OperState → List OperState → Option OperState
last_of current [] = current
last_of current (s ∷ ss) = last_of (some s) ss

writes-append : (xs ys : List Effect) → writes (xs ++ ys) ≡ writes xs ++ writes ys
writes-append [] ys = refl
writes-append (state_set s ∷ xs) ys = rw (writes-append xs ys)
writes-append (state_cleanup ∷ xs) ys = writes-append xs ys
writes-append (ptm_write b ∷ xs) ys = writes-append xs ys
writes-append (serial_write b ∷ xs) ys = writes-append xs ys
writes-append (close_all ∷ xs) ys = writes-append xs ys

Alternates-append :
    (c : Option OperState) (xs ys : List OperState)
    → Alternates c xs
    → Alternates (last_of c xs) ys
    → Alternates c (xs ++ ys)
Alternates-append c [] ys h k = k
Alternates-append c (x ∷ xs) ys h k = (h.0, Alternates-append (some x) xs ys h.1 k)

last_of-append :
    (c : Option OperState) (xs ys : List OperState)
    → last_of c (xs ++ ys) ≡ last_of (last_of c xs) ys
last_of-append c [] ys = refl
last_of-append c (x ∷ xs) ys = last_of-append (some x) xs ys

-- The writes go on from the state that `p` has, and end in the state that the step leaves.
pub record Tracks (p : ProxyService) (r : Step) : Type 0 where
  pub alternates : Alternates p.current_oper_state (writes r.1)
  pub final : last_of p.current_oper_state (writes r.1) ≡ r.0.current_oper_state

-- One step after another.
Tracks-then :
    (p : ProxyService) (r : Step) (t : Step)
    → Tracks p r
    → Tracks r.0 t
    → Tracks p (t.0, r.1 ++ t.1)
Tracks-then p r t h k = record {
  alternates = rw writes-append (
      Alternates-append p.current_oper_state (writes r.1) (writes t.1) h.alternates
        (rw h.final k.alternates));
  final = rw (writes-append, last_of-append) (rw h.final k.final);
}

update_state-Tracks : (s : OperState) (p : ProxyService) → Tracks p (update_state s p)
unfolding update_state
update_state-Tracks s p = ground arith

on_frame_received-Tracks :
    (now : ℕ) (f : Frame) (p : ProxyService) → Tracks p (on_frame_received now f p)
unfolding on_frame_received
on_frame_received-Tracks now f p = ground arith

callbacks-Tracks :
    (now : ℕ) (events : List Event) (p : ProxyService) → Tracks p (callbacks now events p)
unfolding callbacks on_user_data_received
callbacks-Tracks now [] p = record { alternates = tt; final = refl }
callbacks-Tracks now (frame f ∷ events) p =
    Tracks-then p (on_frame_received now f p) (callbacks now events (on_frame_received now f p).0)
      (on_frame_received-Tracks now f p) (callbacks-Tracks now events (on_frame_received now f p).0)
callbacks-Tracks now (user_data bytes ∷ events) p =
    Tracks-then p (on_user_data_received bytes p) (callbacks now events p) (ground arith)
      (callbacks-Tracks now events p)

check_heartbeat_timeout-Tracks :
    (now : ℕ) (p : ProxyService) → Tracks p (check_heartbeat_timeout now p)
unfolding check_heartbeat_timeout
check_heartbeat_timeout-Tracks now p = ground arith

Tracks-nothing : (p : ProxyService) → Tracks p (p, [])
Tracks-nothing p = record { alternates = tt; final = refl }

Tracks-if :
    (b : Bool) (p : ProxyService) (r t : Step)
    → Tracks p r
    → Tracks p t
    → Tracks p (if b then r else t)
Tracks-if true p r t h k = h
Tracks-if false p r t h k = k

on_serial_read-Tracks :
    (now : ℕ) (serial : Option (List ℕ)) (p : ProxyService) → Tracks p (on_serial_read now serial p)
unfolding on_serial_read
on_serial_read-Tracks now none p = Tracks-nothing p
on_serial_read-Tracks now (some []) p = Tracks-nothing p
on_serial_read-Tracks now (some (b ∷ bytes)) p =
    let f = Filter.process p.filter (b ∷ bytes) in
    let q : ProxyService = record p {
      last_data_activity = now;
      last_serial_data_time = now;
      filter = f.0;
    } in
    let t = callbacks-Tracks now f.1 q in
    Tracks-if p.running p (callbacks now f.1 q) (p, [])
      (record { alternates = t.alternates; final = t.final }) (Tracks-nothing p)

on_ptm_read-Tracks : (ptm : Option (List ℕ)) (p : ProxyService) → Tracks p (on_ptm_read ptm p)
unfolding on_ptm_read
on_ptm_read-Tracks none p = Tracks-nothing p
on_ptm_read-Tracks (some []) p = Tracks-nothing p
on_ptm_read-Tracks (some (b ∷ bytes)) p = ground arith

read_serial-Tracks :
    (now : ℕ) (r : Option (Option (List ℕ))) (p : ProxyService) → Tracks p (read_serial now r p)
read_serial-Tracks now none p = Tracks-nothing p
read_serial-Tracks now (some r) p = on_serial_read-Tracks now r p

read_ptm-Tracks : (r : Option (Option (List ℕ))) (p : ProxyService) → Tracks p (read_ptm r p)
read_ptm-Tracks none p = Tracks-nothing p
read_ptm-Tracks (some r) p = on_ptm_read-Tracks r p

check_filter_timeout-Tracks :
    (filter_timeout now : ℕ) (b : Bool) (p : ProxyService)
    → Tracks p (check_filter_timeout filter_timeout now b p)
unfolding check_filter_timeout
check_filter_timeout-Tracks filter_timeout now b p =
    let f = Filter.on_timeout p.filter in
    let t = callbacks-Tracks now f.1 (record p { filter = f.0 }) in
    Tracks-if _ p (callbacks now f.1 (record p { filter = f.0 })) (p, [])
      (record { alternates = t.alternates; final = t.final }) (Tracks-nothing p)

round-Tracks :
    (filter_timeout now : ℕ) (readable : Readable) (p : ProxyService)
    → Tracks p (round filter_timeout now readable p)
unfolding round
round-Tracks filter_timeout now readable p =
    let r1 = read_serial now readable.serial p in
    let r2 = read_ptm readable.ptm r1.0 in
    let r3 = check_heartbeat_timeout now r2.0 in
    let r4 = check_filter_timeout filter_timeout now (is_some readable.serial) r3.0 in
    let k3 =
      Tracks-then r2.0 r3 r4 (check_heartbeat_timeout-Tracks now r2.0)
        (check_filter_timeout-Tracks filter_timeout now (is_some readable.serial) r3.0) in
    let k2 = Tracks-then r1.0 r2 (r4.0, r3.1 ++ r4.1) (read_ptm-Tracks readable.ptm r1.0) k3 in
    Tracks-then p r1 (r4.0, r2.1 ++ (r3.1 ++ r4.1)) (read_serial-Tracks now readable.serial p) k2

-- Over any run, whatever arrives and when, a write of the table is tried only when the state changes:
-- each state that is tried differs from the one before, and the last one is the state that the
-- service holds. A write that fails is not repeated.
pub run_loop-Tracks :
    (filter_timeout : ℕ) (rounds : List (ℕ × Readable)) (p : ProxyService)
    → Tracks p (run_loop filter_timeout rounds p)
unfolding run_loop
run_loop-Tracks filter_timeout [] p = Tracks-nothing p
run_loop-Tracks filter_timeout ((now, readable) ∷ rounds) p =
    let r = round filter_timeout now readable p in
    let t = run_loop filter_timeout rounds r.0 in
    Tracks-if p.running p (t.0, r.1 ++ t.1) (p, [])
      (Tracks-then p r t (round-Tracks filter_timeout now readable p)
        (run_loop-Tracks filter_timeout rounds r.0))
      (Tracks-nothing p)
