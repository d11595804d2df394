-- ===== src/Console/Dte/Heartbeats.antt =====
-- What the heartbeat sender puts on the link, and what the other end makes of it.
use sonic_host_services.Base.{
  ℕ, ◌+◌, ◌%◌, ◌<◌, ◌≡◌, ap, ◌∙◌, Bool, true, false, some, List, [], ◌∷◌, ◌++◌, arith,
  if◌then◌else◌,
}
use sonic_host_services.Console.Frame.{create_heartbeat, sof_sequence, eof_sequence}
use sonic_host_services.Console.Frame.RoundTrip.{IsFrame, build-body, body}
use sonic_host_services.Console.Filter.{FrameFilter, frame, process}
use sonic_host_services.Console.Filter.Resync.{process-frame, idle}
use sonic_host_services.Console.Dte.{DteService, send_heartbeat, heartbeat_loop}

pub create_heartbeat-IsFrame : (seq : ℕ) → IsFrame (create_heartbeat seq)
create_heartbeat-IsFrame seq = omega arith

-- The bytes of the heartbeat with a given number.
abbrev pub wire_of : ℕ → List ℕ
wire_of seq = sof_sequence ++ body (create_heartbeat seq) ++ eof_sequence

send_heartbeat-wire_of :
    (s : DteService) (written : Bool)
    → send_heartbeat written s ≡ (
        if written
        then some (record s { seq = (s.seq + 1) % 256 }, wire_of s.seq)
        else some (s, []))
unfolding send_heartbeat
send_heartbeat-wire_of s written =
    rw (build-body (create_heartbeat s.seq) (create_heartbeat-IsFrame s.seq), send_heartbeat)

pub process-wire_of :
    (r : FrameFilter) (seq : ℕ)
    → seq < 256
    → r.on_frame ≡ true
    → process r (wire_of seq)
      ≡ (idle r, (process r sof_sequence).1 ++ frame (create_heartbeat seq) ∷ [])
process-wire_of r seq small calls =
    let good = create_heartbeat-IsFrame seq in
    let e : seq % 256 ≡ seq = omega arith in
    process-frame r (create_heartbeat seq) (wire_of seq) good (omega arith) calls
      (build-body (create_heartbeat seq) good)
    ∙ ap (λ n. (idle r, (process r sof_sequence).1 ++ frame (create_heartbeat n) ∷ [])) e

-- A heartbeat that is written reaches the filter at the other end, in whatever state that is, as a
-- heartbeat frame with the sender's sequence number; and the number moves on, modulo 256.
pub send_heartbeat-process :
    (s : DteService) (r : FrameFilter)
    → s.seq < 256
    → r.on_frame ≡ true
    → (send_heartbeat true s ≡ some (record s { seq = (s.seq + 1) % 256 }, wire_of s.seq))
      × (process r (wire_of s.seq)
          ≡ (idle r, (process r sof_sequence).1 ++ frame (create_heartbeat s.seq) ∷ []))
send_heartbeat-process s r small calls =
    (send_heartbeat-wire_of s true, process-wire_of r s.seq small calls)

abbrev pub count_true : List Bool → ℕ
count_true [] = 0
count_true (b ∷ bs) = (if b then 1 else 0) + count_true bs

-- What the rounds put on the link.
abbrev pub heartbeats_sent : List Bool → ℕ → List (List ℕ)
heartbeats_sent [] seq = []
heartbeats_sent (true ∷ bs) seq = wire_of seq ∷ heartbeats_sent bs ((seq + 1) % 256)
heartbeats_sent (false ∷ bs) seq = [] ∷ heartbeats_sent bs seq

-- From a sequence number below 256 the loop returns, whichever writes fail, and has sent
-- heartbeats as heartbeats_sent says: each write that succeeds carries the next number modulo 256,
-- and a write that fails uses up none.
pub heartbeat_loop-sent :
    (answers : List Bool) (s : DteService)
    → s.seq < 256
    → heartbeat_loop answers s
      ≡ some (record s { seq = (s.seq + count_true answers) % 256 }, heartbeats_sent answers s.seq)
unfolding heartbeat_loop
heartbeat_loop-sent [] s small =
    let e : s.seq ≡ (s.seq + 0) % 256 = omega arith in ap (λ n. some (record s { seq = n }, [])) e
heartbeat_loop-sent (true ∷ answers) s small =
    let next = (s.seq + 1) % 256 in
    let e : (next + count_true answers) % 256 ≡ (s.seq + (1 + count_true answers)) % 256 =
      omega arith in
    let rest = heartbeat_loop-sent answers (record s { seq = next }) (omega arith) in
    rw (send_heartbeat-wire_of s true, heartbeat_loop) (rw rest (rw e))
heartbeat_loop-sent (false ∷ answers) s small =
    let e : 0 + count_true answers ≡ count_true answers = omega arith in
    rw (send_heartbeat-wire_of s false, heartbeat_loop)
      (rw (heartbeat_loop-sent answers s small) (rw e))
