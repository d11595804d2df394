-- ===== src/Console/Proxy.antt =====
-- `ProxyService` of scripts/console-monitor, from `_initialize` on: the loop that serves one serial
-- port. Times are whole milliseconds of one clock, and each round reads the clock once.
pub mod Heartbeat
pub mod Writes
use Prim.Native.Nat.{min, max}
use sonic_host_services.Base.{
  ℕ, ◌+◌, ◌-◌, ◌*◌, ◌/◌, Bool, ◌&&◌, true, false, Option, none, some, List, [], ◌∷◌, ◌++◌, ltb, leb,
  not, if◌then◌else◌,
}
use sonic_host_services.Console.Frame.{Frame, is_heartbeat, max_frame_buffer_size}
use sonic_host_services.Console.Filter
use sonic_host_services.Console.Filter.{FrameFilter, Event, frame, user_data, has_pending_data}

-- HEARTBEAT_TIMEOUT, 15.0 seconds
abbrev pub heartbeat_timeout : ℕ
heartbeat_timeout = 15000

-- The values "Up" and "Unknown" of `oper_state`.
pub data OperState : Type 0 where
  up unknown : OperState

pub record ProxyService : Type 0 where
  pub running : Bool
  -- `ptm_fd >= 0`
  pub ptm_open : Bool
  pub filter : FrameFilter
  pub current_oper_state : Option OperState
  pub last_heartbeat_time : ℕ
  pub last_data_activity : ℕ
  pub last_serial_data_time : ℕ

-- What the service does to the outside. All of these are attempts: a failure is caught and
-- changes nothing in the service.
pub data Effect : Type 0 where
  state_set : OperState → Effect
  state_cleanup : Effect
  ptm_write : List ℕ → Effect
  serial_write : List ℕ → Effect
  close_all : Effect

abbrev pub Step : Type 0
Step = ProxyService × List Effect

-- The part of `_initialize` that sets the state; the two devices are open and `now` is the time.
unfoldable pub initialize : ℕ → ProxyService
initialize now = record {
  running = true;
  ptm_open = true;
  filter = Filter.init;
  current_oper_state = none;
  last_heartbeat_time = now;
  last_data_activity = now;
  last_serial_data_time = 0;
}

abbrev is_state : OperState → Option OperState → Bool
is_state up (some up) = true
is_state unknown (some unknown) = true
is_state _ _ = false

unfoldable pub update_state : OperState → ProxyService → Step
update_state oper_state p =
    if is_state oper_state p.current_oper_state
    then (p, [])
    else (record p { current_oper_state = some oper_state }, state_set oper_state ∷ [])

-- An unknown frame type is only logged.
unfoldable pub on_frame_received : ℕ → Frame → ProxyService → Step
unfolding update_state
on_frame_received now f p =
    if is_heartbeat f then update_state up (record p { last_heartbeat_time = now }) else (p, [])

unfoldable pub on_user_data_received : List ℕ → ProxyService → Step
on_user_data_received bytes p = (p, if p.ptm_open then ptm_write bytes ∷ [] else [])

-- The callbacks that a call of the filter makes, in order. None of them touches the filter.
unfoldable pub callbacks : ℕ → List Event → ProxyService → Step
callbacks now [] p = (p, [])
callbacks now (frame f ∷ events) p =
    let (q, first) = on_frame_received now f p in
    let (r, rest) = callbacks now events q in (r, first ++ rest)
callbacks now (user_data bytes ∷ events) p =
    let (q, first) = on_user_data_received bytes p in
    let (r, rest) = callbacks now events q in (r, first ++ rest)

unfoldable pub check_heartbeat_timeout : ℕ → ProxyService → Step
unfolding update_state
check_heartbeat_timeout now p =
    if leb heartbeat_timeout (now - p.last_heartbeat_time)
    then if ltb (now - p.last_data_activity) heartbeat_timeout
      then (record p { last_heartbeat_time = now }, [])
      else (let (q, effects) = update_state unknown p in
          (record q { last_heartbeat_time = now }, effects))
    else (p, [])

-- `serial` is what `os.read` returns: `none` for an error that is caught, and no bytes at the end of
-- the input.
unfoldable pub on_serial_read : ℕ → Option (List ℕ) → ProxyService → Step
on_serial_read now none p = (p, [])
on_serial_read now (some []) p = (p, [])
on_serial_read now (some (byte ∷ bytes)) p =
    let (f, events) = Filter.process p.filter (byte ∷ bytes) in
    let q = record p { last_data_activity = now; last_serial_data_time = now; filter = f } in
    if p.running then callbacks now events q else (p, [])

unfoldable pub on_ptm_read : Option (List ℕ) → ProxyService → Step
on_ptm_read none p = (p, [])
on_ptm_read (some []) p = (p, [])
on_ptm_read (some (byte ∷ bytes)) p =
    (p, if p.running then serial_write (byte ∷ bytes) ∷ [] else [])

-- The timeout that `select` is given: at least 0.1 s for the heartbeat, less for pending data.
unfoldable pub select_timeout : ℕ → ℕ → ProxyService → ℕ
select_timeout filter_timeout now p =
    let beat = max 100 (heartbeat_timeout - (now - p.last_heartbeat_time)) in
    if has_pending_data p.filter
    then min beat (filter_timeout - (now - p.last_serial_data_time))
    else beat

unfoldable pub check_filter_timeout : ℕ → ℕ → Bool → ProxyService → Step
check_filter_timeout filter_timeout now serial_data_received p =
    let (f, events) = Filter.on_timeout p.filter in
    if has_pending_data p.filter
      && not serial_data_received
      && leb filter_timeout (now - p.last_serial_data_time)
    then callbacks now events (record p { filter = f })
    else (p, [])

-- What is readable after `select`: `none` where the descriptor is not.
pub record Readable : Type 0 where
  pub serial : Option (Option (List ℕ))
  pub ptm : Option (Option (List ℕ))

abbrev is_some : Option (Option (List ℕ)) → Bool
is_some none = false
is_some (some r) = true

abbrev read_serial : ℕ → Option (Option (List ℕ)) → ProxyService → Step
read_serial now none p = (p, [])
read_serial now (some r) p = on_serial_read now r p

abbrev read_ptm : Option (Option (List ℕ)) → ProxyService → Step
read_ptm none p = (p, [])
read_ptm (some r) p = on_ptm_read r p

-- One round of `_run_loop` after `select`, for a service that is still running.
unfoldable pub round : ℕ → ℕ → Readable → ProxyService → Step
round filter_timeout now readable p =
    let (p1, e1) = read_serial now readable.serial p in
    let (p2, e2) = read_ptm readable.ptm p1 in
    let (p3, e3) = check_heartbeat_timeout now p2 in
    let (p4, e4) = check_filter_timeout filter_timeout now (is_some readable.serial) p3 in
    (p4, e1 ++ (e2 ++ (e3 ++ e4)))

-- The rounds, each with the time at which `select` returns. `stop` ends the loop after a `select`.
unfoldable pub run_loop : ℕ → List (ℕ × Readable) → ProxyService → Step
run_loop filter_timeout [] p = (p, [])
run_loop filter_timeout ((now, readable) ∷ rounds) p =
    let (q, first) = round filter_timeout now readable p in
    let (r, later) = run_loop filter_timeout rounds q in
    if p.running then (r, first ++ later) else (p, [])

abbrev left_over : List ℕ → Bool → List Effect
left_over [] open_ptm = []
left_over (b ∷ bs) open_ptm = if open_ptm then ptm_write (b ∷ bs) ∷ [] else []

-- `_cleanup`: the state leaves the database, and the rest of the buffer goes to the user.
unfoldable pub cleanup : ProxyService → Step
cleanup p = (
  record p {
    filter = if p.ptm_open then (Filter.flush p.filter).0 else p.filter;
    ptm_open = false;
  },
  state_cleanup ∷ (left_over (Filter.flush p.filter).1 p.ptm_open ++ close_all ∷ []),
)

unfoldable pub stop : ProxyService → ProxyService
stop p = record p { running = false }
