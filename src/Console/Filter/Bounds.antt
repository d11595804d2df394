-- ===== src/Console/Filter/Bounds.antt =====
-- How large the filter's buffer grows.
use sonic_host_services.Base.{
  ℕ, zero, suc, ◌+◌, ◌≤◌, ◌<◌, ◌≡◌, ap, ◌∙◌, true, false, List, [], ◌∷◌, ◌++◌, length,
  length-append, replicate, length-replicate, arith, append-nil, append_assoc,
}
use sonic_host_services.Console.Escape.{dle}
use sonic_host_services.Console.Frame.{max_frame_buffer_size}
use sonic_host_services.Console.Filter.{FrameFilter, process_byte, process}

-- Inside a frame the buffer stays below its limit, but for an escape byte that waits for its
-- partner; outside a frame no escape is pending.
pub record IsBounded (s : FrameFilter) : Type 0 where
  pub in_frame : s.in_frame ≡ true → s.escape_next ≡ false → length s.buffer < max_frame_buffer_size
  pub escaping : s.in_frame ≡ true → s.escape_next ≡ true → length s.buffer ≤ max_frame_buffer_size
  pub outside : s.in_frame ≡ false → s.escape_next ≡ false

process_byte-IsBounded : (s : FrameFilter) (b : ℕ) → IsBounded s → IsBounded (process_byte s b).0
unfolding process_byte
process_byte-IsBounded s b h = ground (arith, length-append s.buffer (b ∷ []))

-- A filter whose buffer is within the limit inside a frame (IsBounded) stays so, whatever arrives.
pub process-IsBounded :
    (s : FrameFilter) (bytes : List ℕ) → IsBounded s → IsBounded (process s bytes).0
unfolding process
process-IsBounded s [] h = h
process-IsBounded s (b ∷ bytes) h =
    process-IsBounded (process_byte s b).0 bytes (process_byte-IsBounded s b h)

process_byte-dle_outside :
    (s : FrameFilter)
    → s.in_frame ≡ false
    → s.escape_next ≡ false
    → process_byte s dle ≡ (record s { buffer = s.buffer ++ dle ∷ [] }, [])
unfolding process_byte
process_byte-dle_outside s h e = ground arith

process-dles :
    (n : ℕ) (s : FrameFilter)
    → s.in_frame ≡ false
    → s.escape_next ≡ false
    → process s (replicate n dle) ≡ (record s { buffer = s.buffer ++ replicate n dle }, [])
unfolding process
process-dles zero s h e = rw append-nil
process-dles (suc n) s h e =
    let rest = process-dles n (record s { buffer = s.buffer ++ dle ∷ [] }) h e in
    rw (process_byte-dle_outside s h e) (rw rest (rw append_assoc))

-- Outside a frame and without a pending escape, any number of escape bytes stays in the buffer,
-- beyond the limit, and nothing is handed on.
pub process-dles_unbounded :
    (n : ℕ) (s : FrameFilter)
    → s.in_frame ≡ false
    → s.escape_next ≡ false
    → (length (process s (replicate n dle)).0.buffer ≡ length s.buffer + n)
      × ((process s (replicate n dle)).1 ≡ [])
process-dles_unbounded n s h e =
    let all = process-dles n s h e in
    (
      ap (λ t. length t.0.buffer) all
          ∙ omega (arith, length-append {0} s.buffer (replicate n dle), length-replicate {0} n dle),
      ap (λ t. t.1) all,
    )
