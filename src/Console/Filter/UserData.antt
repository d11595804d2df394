-- ===== src/Console/Filter/UserData.antt =====
-- What becomes of the user data that passes the filter outside frames.
use mathlib.Core.Path.{◌≡⟨◌⟩◌, ◌∎}
use sonic_host_services.Base.{
  ℕ, ◌≡◌, refl, sym, ap, ◌∙◌, true, false, List, [], ◌∷◌, ◌++◌, arith, append-nil, append_assoc,
  All, ◌==◌,
}
use sonic_host_services.Console.Escape.{sof, eof}
use sonic_host_services.Console.Filter.{
  FrameFilter, Event, frame, user_data, process_byte, process, on_timeout,
}
use sonic_host_services.Console.Filter.Resync.{process-append}

-- The bytes handed on as user data, in order.
abbrev pub user_bytes : List Event → List ℕ
user_bytes [] = []
user_bytes (frame f ∷ es) = user_bytes es
user_bytes (user_data b ∷ es) = b ++ user_bytes es

user_bytes-append : (xs ys : List Event) → user_bytes (xs ++ ys) ≡ user_bytes xs ++ user_bytes ys
user_bytes-append [] ys = refl
user_bytes-append (frame f ∷ es) ys = user_bytes-append es ys
user_bytes-append (user_data b ∷ es) ys = rw (user_bytes-append es ys, append_assoc)

-- Neither of the two marks.
abbrev pub IsPlain : ℕ → Type 0
IsPlain b = ((b == sof) ≡ false) × ((b == eof) ≡ false)

-- Outside a frame, with user data wanted.
pub record IsOutside (s : FrameFilter) : Type 0 where
  pub in_frame : s.in_frame ≡ false
  pub escape_next : s.escape_next ≡ false
  pub on_user_data : s.on_user_data ≡ true

process_byte-plain :
    (s : FrameFilter) (b : ℕ) → IsOutside s → IsPlain b → IsOutside (process_byte s b).0
unfolding process_byte
process_byte-plain s b h p = ground arith

process_byte-keeps :
    (s : FrameFilter) (b : ℕ)
    → IsOutside s
    → IsPlain b
    → user_bytes (process_byte s b).1 ++ (process_byte s b).0.buffer ≡ s.buffer ++ b ∷ []
unfolding process_byte
process_byte-keeps s b h p = ground (arith, append-nil (s.buffer ++ b ∷ []))

-- Bytes without marks pass unchanged and in order: what was handed on, then what is still in the
-- buffer, is what was in the buffer, then what came.
pub process-plain :
    (s : FrameFilter) (bytes : List ℕ)
    → IsOutside s
    → All IsPlain bytes
    → user_bytes (process s bytes).1 ++ (process s bytes).0.buffer ≡ s.buffer ++ bytes
unfolding process
process-plain s [] h p = rw append-nil
process-plain s (b ∷ bytes) h p =
    let t = (process_byte s b).0 in
    let rest = process-plain t bytes (process_byte-plain s b h p.0) p.1 in
    let kept = process_byte-keeps s b h p.0 in
    user_bytes ((process_byte s b).1 ++ (process t bytes).1) ++ (process t bytes).0.buffer
    ≡⟨ rw user_bytes-append (rw append_assoc) ⟩
      user_bytes (process_byte s b).1
      ++ (user_bytes (process t bytes).1 ++ (process t bytes).0.buffer)
    ≡⟨ ap (λ l. user_bytes (process_byte s b).1 ++ l) rest ⟩
      user_bytes (process_byte s b).1 ++ (t.buffer ++ bytes)
    ≡⟨ sym (append_assoc _ t.buffer bytes) ⟩ (user_bytes (process_byte s b).1 ++ t.buffer) ++ bytes
    ≡⟨ ap (λ l. l ++ bytes) kept ⟩ (s.buffer ++ b ∷ []) ++ bytes
    ≡⟨ append_assoc s.buffer (b ∷ []) bytes ⟩ s.buffer ++ b ∷ bytes ∎

process-IsOutside :
    (s : FrameFilter) (bytes : List ℕ)
    → IsOutside s
    → All IsPlain bytes
    → IsOutside (process s bytes).0
unfolding process
process-IsOutside s [] h p = h
process-IsOutside s (b ∷ bytes) h p =
    process-IsOutside (process_byte s b).0 bytes (process_byte-plain s b h p.0) p.1

on_timeout-outside :
    (s : FrameFilter)
    → IsOutside s
    → (user_bytes (on_timeout s).1 ≡ s.buffer) × ((on_timeout s).0.buffer ≡ [])
unfolding on_timeout
on_timeout-outside s h = ground (arith, append-nil s.buffer)

-- From a state outside a frame (IsOutside), bytes without marks followed by a timeout hand on the
-- buffer and all the bytes, unchanged and in order, and leave the buffer empty.
pub process-on_timeout :
    (s : FrameFilter) (bytes : List ℕ)
    → IsOutside s
    → All IsPlain bytes
    → let t = process s bytes in
      (user_bytes (t.1 ++ (on_timeout t.0).1) ≡ s.buffer ++ bytes)
      × ((on_timeout t.0).0.buffer ≡ [])
process-on_timeout s bytes h p =
    let t = (process s bytes).0 in
    (
      user_bytes-append (process s bytes).1 (on_timeout t).1
          ∙ ap (λ l. user_bytes (process s bytes).1 ++ l)
              (on_timeout-outside t (process-IsOutside s bytes h p)).0
          ∙ process-plain s bytes h p,
      (on_timeout-outside t (process-IsOutside s bytes h p)).1,
    )

process_byte-eof_outside :
    (s : FrameFilter)
    → s.escape_next ≡ false
    → (user_bytes (process_byte s eof).1 ≡ []) × ((process_byte s eof).0.buffer ≡ [])
unfolding process_byte
process_byte-eof_outside s e = ground arith

process-snoc :
    (s : FrameFilter) (bytes : List ℕ) (b : ℕ)
    → process s (bytes ++ b ∷ []) ≡ (
      (process_byte (process s bytes).0 b).0,
      (process s bytes).1 ++ (process_byte (process s bytes).0 b).1,
    )
unfolding process
process-snoc s bytes b = process-append s bytes (b ∷ []) ∙ rw append-nil

-- From a state outside a frame (IsOutside), after bytes without marks a zero byte empties the
-- buffer without handing it on: what has been handed on is all but the bytes that were buffered.
pub process-eof_drops :
    (s : FrameFilter) (bytes : List ℕ)
    → IsOutside s
    → All IsPlain bytes
    → let t = process s bytes in
      let u = process s (bytes ++ eof ∷ []) in
      (user_bytes u.1 ++ t.0.buffer ≡ s.buffer ++ bytes) × (u.0.buffer ≡ [])
process-eof_drops s bytes h p =
    let t = (process s bytes).0 in
    let e = process_byte-eof_outside t (process-IsOutside s bytes h p).escape_next in
    let u = process-snoc s bytes eof in
    (
      ap (λ w. user_bytes w.1 ++ t.buffer) u
          ∙ rw (user_bytes-append, e.0) (rw append-nil (process-plain s bytes h p)),
      ap (λ w. w.0.buffer) u ∙ e.1,
    )
