-- ===== src/Console/Proxy/Heartbeat.antt =====
-- When the proxy calls its link up, and when it stops to.
use sonic_host_services.Base.{
  ℕ, ◌+◌, ◌≤◌, ◌<◌, ◌≡◌, ◌≢◌, refl, sym, ap, subst, ◌∙◌, Bool, true, false, Option, none, some,
  List, [], ◌∷◌, ◌++◌, arith, All, if◌then◌else◌, inl, inr, ◌⊎◌,
}
use sonic_host_services.Console.Frame.{create_heartbeat, sof_sequence}
use sonic_host_services.Console.Filter
use sonic_host_services.Console.Filter.{FrameFilter, Event, frame, user_data, has_pending_data}
use sonic_host_services.Console.Filter.Resync.{IsUserData, process-sof_sequence-IsUserData}
use sonic_host_services.Console.Dte.Heartbeats.{wire_of, process-wire_of}
use sonic_host_services.Console.Proxy.{
  ProxyService, up, unknown, Step, Readable, on_frame_received, on_user_data_received, callbacks,
  check_heartbeat_timeout, on_serial_read, on_ptm_read, read_serial, read_ptm, is_some,
  check_filter_timeout, round,
}

-- What holds of the clocks at time `now`: while the state is not "Unknown", the last heartbeat (or
-- the last time that data stood in for one) is at most one timeout younger than the last data.
pub record IsTimely (now : ℕ) (p : ProxyService) : Type 0 where
  pub heartbeat : p.last_heartbeat_time ≤ now
  pub activity : p.last_data_activity ≤ now
  pub near :
      (p.current_oper_state ≡ some unknown) ⊎ (p.last_heartbeat_time ≤ p.last_data_activity + 15000)

check_heartbeat_timeout-IsTimely :
    (before now : ℕ) (p : ProxyService)
    → before ≤ now
    → IsTimely before p
    → IsTimely now (check_heartbeat_timeout now p).0
unfolding check_heartbeat_timeout
check_heartbeat_timeout-IsTimely before now p le h = ground arith

-- User data changes nothing in the service.
callbacks-user_data :
    (now : ℕ) (events : List Event) (p : ProxyService)
    → All IsUserData events
    → (callbacks now events p).0 ≡ p
unfolding callbacks on_user_data_received
callbacks-user_data now [] p h = refl
callbacks-user_data now (user_data b ∷ events) p h = callbacks-user_data now events p h.1
callbacks-user_data now (frame f ∷ events) p h = absurd h.0

callbacks-append :
    (now : ℕ) (xs ys : List Event) (p : ProxyService)
    → (callbacks now (xs ++ ys) p).0 ≡ (callbacks now ys (callbacks now xs p).0).0
unfolding callbacks on_user_data_received
callbacks-append now [] ys p = refl
callbacks-append now (user_data b ∷ xs) ys p = callbacks-append now xs ys p
callbacks-append now (frame f ∷ xs) ys p = callbacks-append now xs ys (on_frame_received now f p).0

-- While data is at hand, callbacks keep the clocks in order.
callbacks-IsTimely :
    (now : ℕ) (events : List Event) (p : ProxyService)
    → p.last_data_activity ≡ now
    → IsTimely now p
    → IsTimely now (callbacks now events p).0
unfolding callbacks on_user_data_received on_frame_received
callbacks-IsTimely now [] p d h = h
callbacks-IsTimely now (user_data b ∷ events) p d h = callbacks-IsTimely now events p d h
callbacks-IsTimely now (frame f ∷ events) p d h =
    callbacks-IsTimely now events (on_frame_received now f p).0 (ground arith) (ground arith)

Step-if :
    (P : ProxyService → Type 0) (b : Bool) (r t : Step) → P r.0 → P t.0 → P (if b then r else t).0
Step-if P true r t h k = h
Step-if P false r t h k = k

on_serial_read-IsTimely :
    (before now : ℕ) (serial : Option (List ℕ)) (p : ProxyService)
    → before ≤ now
    → IsTimely before p
    → IsTimely now (on_serial_read now serial p).0
unfolding on_serial_read
on_serial_read-IsTimely before now none p le h = ground arith
on_serial_read-IsTimely before now (some []) p le h = ground arith
on_serial_read-IsTimely before now (some (b ∷ bytes)) p le h =
    let f = Filter.process p.filter (b ∷ bytes) in
    let q : ProxyService = record p {
      last_data_activity = now;
      last_serial_data_time = now;
      filter = f.0;
    } in
    Step-if (IsTimely now) p.running (callbacks now f.1 q) (p, [])
      (callbacks-IsTimely now f.1 q refl (ground arith)) (ground arith)

read_serial-IsTimely :
    (before now : ℕ) (r : Option (Option (List ℕ))) (p : ProxyService)
    → before ≤ now
    → IsTimely before p
    → IsTimely now (read_serial now r p).0
read_serial-IsTimely before now none p le h = ground arith
read_serial-IsTimely before now (some r) p le h = on_serial_read-IsTimely before now r p le h

read_ptm-same : (r : Option (Option (List ℕ))) (p : ProxyService) → (read_ptm r p).0 ≡ p
unfolding on_ptm_read
read_ptm-same none p = refl
read_ptm-same (some none) p = refl
read_ptm-same (some (some [])) p = refl
read_ptm-same (some (some (b ∷ bytes))) p = refl

on_timeout-IsUserData : (f : FrameFilter) → All IsUserData (Filter.on_timeout f).1
unfolding Filter.on_timeout
on_timeout-IsUserData f = ground arith

-- The filter's timeout changes the filter alone.
check_filter_timeout-filter :
    (filter_timeout now : ℕ) (b : Bool) (p : ProxyService)
    → let q = (check_filter_timeout filter_timeout now b p).0 in q ≡ record p { filter = q.filter }
unfolding check_filter_timeout
check_filter_timeout-filter filter_timeout now b p =
    let f = Filter.on_timeout p.filter in
    let q : ProxyService = record p { filter = f.0 } in
    let e = callbacks-user_data now f.1 q (on_timeout-IsUserData p.filter) in
    Step-if (λ r. r ≡ record p { filter = r.filter }) _ (callbacks now f.1 q) (p, [])
      (e ∙ ap (λ g. record p { filter = g }) (sym (ap (λ r. r.filter) e))) refl

-- What a round leaves, but for the filter: the heartbeat check after the serial read.
round-checked :
    (filter_timeout now : ℕ) (readable : Readable) (p : ProxyService)
    → let q = (round filter_timeout now readable p).0 in
      q ≡ record (check_heartbeat_timeout now (read_serial now readable.serial p).0).0 {
        filter = q.filter;
      }
unfolding round
round-checked filter_timeout now readable p =
    let p1 = (read_serial now readable.serial p).0 in
    let e = read_ptm-same readable.ptm p1 in
    let p3 = (check_heartbeat_timeout now (read_ptm readable.ptm p1).0).0 in
    check_filter_timeout-filter filter_timeout now (is_some readable.serial) p3
    ∙ ap
        (λ r. record (check_heartbeat_timeout now r).0 {
          filter = (round filter_timeout now readable p).0.filter;
        })
        e

-- A round at a time that is not before the last one keeps the clocks in order (IsTimely), whatever
-- it reads.
pub round-IsTimely :
    (filter_timeout before now : ℕ) (readable : Readable) (p : ProxyService)
    → before ≤ now
    → IsTimely before p
    → IsTimely now (round filter_timeout now readable p).0
round-IsTimely filter_timeout before now readable p le h =
    let k =
      check_heartbeat_timeout-IsTimely now now (read_serial now readable.serial p).0 (omega arith)
        (read_serial-IsTimely before now readable.serial p le h) in
    rw (round-checked filter_timeout now readable p)
      (record { heartbeat = k.heartbeat; activity = k.activity; near = k.near })

check_silent :
    (before now : ℕ) (p : ProxyService)
    → IsTimely before p
    → p.last_data_activity + 30000 ≤ now
    → (check_heartbeat_timeout now p).0.current_oper_state ≡ some unknown
unfolding check_heartbeat_timeout
check_silent before now p h silent = ground arith

-- If the clocks of the service are in order (IsTimely), the last data came at least 30 seconds ago
-- and the serial line has nothing to read, the link is "Unknown" after the round.
pub round_silent :
    (filter_timeout before now : ℕ) (readable : Readable) (p : ProxyService)
    → IsTimely before p
    → readable.serial ≡ none
    → p.last_data_activity + 30000 ≤ now
    → (round filter_timeout now readable p).0.current_oper_state ≡ some unknown
round_silent filter_timeout before now readable p h quiet silent =
    let e : read_serial now readable.serial p ≡ (p, []) = rw quiet in
    ap (λ q. q.current_oper_state) (round-checked filter_timeout now readable p)
    ∙ ap (λ r. (check_heartbeat_timeout now r.0).0.current_oper_state) e
    ∙ check_silent before now p h silent

callbacks-active :
    (now : ℕ) (events : List Event) (p : ProxyService)
    → p.current_oper_state ≢ some unknown
    → ((callbacks now events p).0.current_oper_state ≢ some unknown)
      × ((callbacks now events p).0.last_data_activity ≡ p.last_data_activity)
unfolding callbacks on_user_data_received on_frame_received
callbacks-active now [] p h = (h, refl)
callbacks-active now (user_data b ∷ events) p h = callbacks-active now events p h
callbacks-active now (frame f ∷ events) p h =
    let k = callbacks-active now events (on_frame_received now f p).0 (ground arith) in
    (k.0, ground (arith, k.1))

-- After the serial read the service is as it was, or it has data of this very moment.
read_serial-active :
    (now : ℕ) (r : Option (Option (List ℕ))) (p : ProxyService)
    → p.current_oper_state ≢ some unknown
    → let q = (read_serial now r p).0 in
      (q ≡ p) ⊎ ((q.last_data_activity ≡ now) × (q.current_oper_state ≢ some unknown))
unfolding on_serial_read
read_serial-active now none p h = inl refl
read_serial-active now (some none) p h = inl refl
read_serial-active now (some (some [])) p h = inl refl
read_serial-active now (some (some (b ∷ bytes))) p h =
    let f = Filter.process p.filter (b ∷ bytes) in
    let q : ProxyService = record p {
      last_data_activity = now;
      last_serial_data_time = now;
      filter = f.0;
    } in
    let k = callbacks-active now f.1 q h in
    Step-if (λ q. (q ≡ p) ⊎ ((q.last_data_activity ≡ now) × (q.current_oper_state ≢ some unknown)))
      p.running (callbacks now f.1 q) (p, []) (inr (k.1, k.0)) (inl refl)

check_active :
    (now : ℕ) (p : ProxyService)
    → p.current_oper_state ≢ some unknown
    → (check_heartbeat_timeout now p).0.current_oper_state ≡ some unknown
    → (p.last_heartbeat_time + 15000 ≤ now) × (p.last_data_activity + 15000 ≤ now)
unfolding check_heartbeat_timeout
check_active now p h e = ground arith

-- A round turns a link that was not "Unknown" into one that is only if both the last heartbeat and
-- the last data are at least 15 seconds old.
pub round_active :
    (filter_timeout now : ℕ) (readable : Readable) (p : ProxyService)
    → p.current_oper_state ≢ some unknown
    → (round filter_timeout now readable p).0.current_oper_state ≡ some unknown
    → (p.last_heartbeat_time + 15000 ≤ now) × (p.last_data_activity + 15000 ≤ now)
round_active filter_timeout now readable p h e =
    let q = (read_serial now readable.serial p).0 in
    let e' : (check_heartbeat_timeout now q).0.current_oper_state ≡ some unknown =
      sym (ap (λ r. r.current_oper_state) (round-checked filter_timeout now readable p)) ∙ e in
    elim (read_serial-active now readable.serial p h) [
      | inl same ↦
          check_active now p h
            (ap (λ r. (check_heartbeat_timeout now r).0.current_oper_state) (sym same) ∙ e')
      | inr fresh ↦ absurd (omega (arith, fresh.0, check_active now q fresh.1 e'))
    ]

-- "Up", with a heartbeat of this very moment.
abbrev pub IsFresh : ℕ → ProxyService → Type 0
IsFresh now q = (q.current_oper_state ≡ some up) × (q.last_heartbeat_time ≡ now)

callbacks-heartbeat :
    (now seq : ℕ) (events : List Event) (p : ProxyService)
    → All IsUserData events
    → IsFresh now (callbacks now (events ++ frame (create_heartbeat seq) ∷ []) p).0
unfolding callbacks on_user_data_received on_frame_received
callbacks-heartbeat now seq [] p h = ground arith
callbacks-heartbeat now seq (user_data b ∷ events) p h = callbacks-heartbeat now seq events p h.1
callbacks-heartbeat now seq (frame f ∷ events) p h = absurd h.0

on_serial_read-heartbeat :
    (now : ℕ) (p : ProxyService) (seq : ℕ)
    → p.running ≡ true
    → p.filter.on_frame ≡ true
    → seq < 256
    → IsFresh now (on_serial_read now (some (wire_of seq)) p).0
unfolding on_serial_read
on_serial_read-heartbeat now p seq runs calls small =
    let e = process-wire_of p.filter seq small calls in
    let pre = (Filter.process p.filter sof_sequence).1 in
    let fed : FrameFilter × List Event → Step = λ g.
      callbacks now g.1
        (record p { last_data_activity = now; last_serial_data_time = now; filter = g.0 }) in
    let k : IsFresh now (fed (Filter.process p.filter (wire_of seq))).0 =
      subst (λ g. IsFresh now (fed g).0) (sym e)
        (callbacks-heartbeat now seq pre _ (process-sof_sequence-IsUserData p.filter)) in
    subst
      (λ (b : Bool).
        IsFresh now (if b then fed (Filter.process p.filter (wire_of seq)) else (p, [])).0)
      (sym runs) k

check_heartbeat_timeout-fresh :
    (now : ℕ) (p : ProxyService)
    → p.last_heartbeat_time ≡ now
    → check_heartbeat_timeout now p ≡ (p, [])
unfolding check_heartbeat_timeout
check_heartbeat_timeout-fresh now p e = ground arith

-- In a running service whose filter has a frame callback, a heartbeat with a sequence number below
-- 256 that is read whole makes the link "Up" in that round, whatever the filter was in the middle
-- of, and the heartbeat counts from that moment.
pub round_heartbeat :
    (filter_timeout now : ℕ) (readable : Readable) (p : ProxyService) (seq : ℕ)
    → p.running ≡ true
    → p.filter.on_frame ≡ true
    → seq < 256
    → readable.serial ≡ some (some (wire_of seq))
    → IsFresh now (round filter_timeout now readable p).0
round_heartbeat filter_timeout now readable p seq runs calls small arrives =
    let q = (read_serial now readable.serial p).0 in
    let k : IsFresh now q = rw arrives (on_serial_read-heartbeat now p seq runs calls small) in
    let e = round-checked filter_timeout now readable p in
    let c = check_heartbeat_timeout-fresh now q k.1 in
    (
      ap (λ r. r.current_oper_state) e ∙ ap (λ r. r.0.current_oper_state) c ∙ k.0,
      ap (λ r. r.last_heartbeat_time) e ∙ ap (λ r. r.0.last_heartbeat_time) c ∙ k.1,
    )
