-- ===== src/Console/Filter/Resync.antt =====
-- Finding frames in a byte stream: the start mark resynchronises the filter whatever came before.
use sonic_host_services.Base.{
  ℕ, suc, ◌+◌, ◌%◌, ◌≤◌, ◌<◌, ◌≡◌, refl, ap, ◌∙◌, Bool, true, false, some, List, [], ◌∷◌, ◌++◌,
  length, length-append, All, arith, Bool-cases, inl, inr, append-nil, append_assoc,
}
use sonic_host_services.Console.Escape.{dle, escape_data, is_escapable}
use sonic_host_services.Console.Frame.{Frame, parse, build, sof_sequence, eof_sequence}
use sonic_host_services.Console.Frame.RoundTrip.{
  IsFrame, body, content, crc_of, parse-build, length-body,
}
use sonic_host_services.Console.Filter.{
  FrameFilter, Event, frame, user_data, frame_events, is_empty, process_byte, process,
}

-- The state after a start mark.
abbrev pub started : FrameFilter → FrameFilter
started s = record s { buffer = []; escape_next = false; in_frame = true }

pub process-append :
    (s : FrameFilter) (xs ys : List ℕ)
    → process s (xs ++ ys)
      ≡ ((process (process s xs).0 ys).0, (process s xs).1 ++ (process (process s xs).0 ys).1)
unfolding process
process-append s [] ys = refl
process-append s (x ∷ xs) ys = rw (process-append (process_byte s x).0 xs ys, append_assoc)

-- Three start bytes: the first may be taken for an escaped byte, the second ends whatever was
-- under way, and the third finds an empty frame.
process-sof_sequence : (s : FrameFilter) → (process s sof_sequence).0 ≡ started s
unfolding process process_byte
process-sof_sequence s = ground arith

abbrev pub IsUserData : Event → Type 0
IsUserData (user_data b) = Unit
IsUserData (frame f) = ⊥

-- A start mark reports no frame.
pub process-sof_sequence-IsUserData : (s : FrameFilter) → All IsUserData (process s sof_sequence).1
unfolding process process_byte
process-sof_sequence-IsUserData s = ground arith

-- Inside a frame, with `buf` collected and the next byte escaped or not.
abbrev inside : FrameFilter → List ℕ → Bool → FrameFilter
inside s buf escaped = record s { buffer = buf; escape_next = escaped; in_frame = true }

process_byte-dle :
    (s : FrameFilter) (buf : List ℕ)
    → process_byte (inside s buf false) dle ≡ (inside s (buf ++ dle ∷ []) true, [])
unfolding process_byte
process_byte-dle s buf = refl

process_byte-escaped :
    (s : FrameFilter) (buf : List ℕ) (b : ℕ)
    → length buf + 1 < 64
    → process_byte (inside s buf true) b ≡ (inside s (buf ++ b ∷ []) false, [])
unfolding process_byte
process_byte-escaped s buf b h = ground (arith, length-append buf (b ∷ []))

process_byte-plain :
    (s : FrameFilter) (buf : List ℕ) (b : ℕ)
    → is_escapable b ≡ false
    → length buf + 1 < 64
    → process_byte (inside s buf false) b ≡ (inside s (buf ++ b ∷ []) false, [])
unfolding process_byte
process_byte-plain s buf b e h = ground (arith, length-append buf (b ∷ []))

-- Escaped bytes are collected as they are, as long as the buffer has room.
process-escape_data :
    (s : FrameFilter) (buf xs : List ℕ)
    → length buf + length (escape_data xs) < 64
    → process (inside s buf false) (escape_data xs) ≡ (inside s (buf ++ escape_data xs) false, [])
unfolding process escape_data
process-escape_data s buf [] h = rw append-nil
process-escape_data s buf (b ∷ xs) h = elim (Bool-cases (is_escapable b)) [
  | inl e ↦
      let room : length buf + suc (suc (length (escape_data xs))) < 64 = rw e at h in
      let one = length-append buf (dle ∷ []) in
      let two = length-append (buf ++ dle ∷ []) (b ∷ []) in
      let escaped = process_byte-escaped s (buf ++ dle ∷ []) b (omega (arith, room, one)) in
      let rest =
        process-escape_data s ((buf ++ dle ∷ []) ++ b ∷ []) xs (omega (arith, room, one, two)) in
      rw e (rw (process_byte-dle s buf) (rw escaped (rw rest (simp append_assoc))))
  | inr e ↦
      let room : length buf + suc (length (escape_data xs)) < 64 = rw e at h in
      let one = length-append buf (b ∷ []) in
      let plain = process_byte-plain s buf b e (omega (arith, room)) in
      let rest = process-escape_data s (buf ++ b ∷ []) xs (omega (arith, room, one)) in
      rw e (rw plain (rw rest (simp append_assoc)))
]

is_empty-escape_data : (x : ℕ) (xs : List ℕ) → is_empty (escape_data (x ∷ xs)) ≡ false
unfolding escape_data
is_empty-escape_data x xs = ground arith

abbrev pub idle : FrameFilter → FrameFilter
idle s = record s { buffer = []; escape_next = false; in_frame = false }

-- The first end byte ends the frame, and the two others find nothing.
process-eof_sequence :
    (s : FrameFilter) (xs : List ℕ)
    → is_empty xs ≡ false
    → process (inside s xs false) eof_sequence ≡ (idle s, frame_events s.on_frame (parse xs))
unfolding process process_byte
process-eof_sequence s [] h = cc
process-eof_sequence s (x ∷ xs) h = simp append-nil

-- From any state of the filter with a frame callback, a frame of bytes with at most 24 bytes of
-- payload that arrives whole is reported, with its sequence number modulo 256, after what the
-- start mark pushed out, and leaves the filter idle.
pub process-frame :
    (s : FrameFilter) (f : Frame) (wire : List ℕ)
    → IsFrame f
    → length f.payload ≤ 24
    → s.on_frame ≡ true
    → build f ≡ some wire
    → process s wire
      ≡ (idle s, (process s sof_sequence).1 ++ frame (record f { seq = f.seq % 256 }) ∷ [])
process-frame s f wire h small calls built =
    let good = parse-build f h in
    let e : wire ≡ sof_sequence ++ body f ++ eof_sequence = cc (built, good.0) in
    let collected =
      process-escape_data s [] (content f ++ crc_of f) (omega (arith, length-body f small)) in
    let ended = process-eof_sequence s (body f) (is_empty-escape_data f.version _) in
    ap (process s) e
    ∙ process-append s sof_sequence (body f ++ eof_sequence)
    ∙ rw (process-sof_sequence s) (
        rw (process-append (started s) (body f) eof_sequence)
          (rw collected (rw ended (rw (good.1, calls)))))
