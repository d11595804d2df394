-- ===== src/Console/Frame/RoundTrip.antt =====
-- Building a frame and parsing it.
use sonic_host_services.Base.{
  ℕ, ◌+◌, ◌-◌, ◌/◌, ◌%◌, ◌^◌, ◌≤◌, ◌<◌, ◌≡◌, refl, ap, ◌∙◌, some, List, [], ◌∷◌, ◌++◌, arith, ltb,
  length, take, length-append, take-append_length, drop-append_length, All, if◌then◌else◌,
}
use sonic_host_services.Base.Bits.{bit_or_shift}
use sonic_host_services.Console.Crc.{crc16_modbus, crc16_modbus-lt}
use sonic_host_services.Console.Escape.{escape_data, unescape_data-escape_data, length-escape_data}
use sonic_host_services.Console.Frame.{
  Frame, sof_sequence, eof_sequence, build, fields, parse, check_content, parse_unescaped,
  max_frame_buffer_size,
}

-- The numbers of a frame are bytes, and so is the payload's length.
pub record IsFrame (f : Frame) : Type 0 where
  pub version : f.version < 256
  pub flag : f.flag < 256
  pub frame_type : f.frame_type < 256
  pub size : length f.payload < 256
  pub payload : All (λ b. b < 256) f.payload

abbrev pub content : Frame → List ℕ
content f = (f.version ∷ (f.seq % 256) ∷ f.flag ∷ f.frame_type ∷ length f.payload ∷ []) ++ f.payload

abbrev pub crc_of : Frame → List ℕ
crc_of f = (crc16_modbus (content f) / 2 ^ 8) ∷ (crc16_modbus (content f) % 256) ∷ []

-- The escaped part of a frame on the wire.
abbrev pub body : Frame → List ℕ
body f = escape_data (content f ++ crc_of f)

content_bytes : (f : Frame) → IsFrame f → All (λ b. b < 256) (content f)
content_bytes f h = (h.version, (omega arith, (h.flag, (h.frame_type, (h.size, h.payload)))))

pub build-body : (f : Frame) → IsFrame f → build f ≡ some (sof_sequence ++ body f ++ eof_sequence)
unfolding build
build-body f h = ground (arith, crc16_modbus-lt (content f) (content_bytes f h))

-- The checksum's two bytes pass the test.
check_content-crc :
    (c : List ℕ)
    → crc16_modbus c < 65536
    → 5 ≤ length c
    → check_content c ((crc16_modbus c / 2 ^ 8) ∷ (crc16_modbus c % 256) ∷ []) ≡ some (fields c)
unfolding check_content
check_content-crc c lt len =
    ground (arith, bit_or_shift 8 (crc16_modbus c / 2 ^ 8) (crc16_modbus c % 256) (omega arith))

parse_unescaped-append :
    (c : List ℕ) (a b : ℕ)
    → 5 ≤ length c
    → parse_unescaped (c ++ a ∷ b ∷ []) ≡ check_content c (a ∷ b ∷ [])
unfolding parse_unescaped
parse_unescaped-append c a b len =
    let total : length (c ++ a ∷ b ∷ []) ≡ length c + 2 = length-append c (a ∷ b ∷ []) in
    let cut : length (c ++ a ∷ b ∷ []) - 2 ≡ length c = omega (arith, total) in
    rw cut
      (rw (take-append_length c (a ∷ b ∷ []), drop-append_length c (a ∷ b ∷ [])) (ground arith))

take_all : (xs : List ℕ) → take (length xs) xs ≡ xs
take_all [] = refl
take_all (x ∷ xs) = ap (λ l. x ∷ l) (take_all xs)

counted_payload : (p : List ℕ) → (if ltb 0 (length p) then take (length p) p else []) ≡ p
counted_payload [] = refl
counted_payload (x ∷ p) = ground (arith, take_all p)

fields-content : (f : Frame) → fields (content f) ≡ record f { seq = f.seq % 256 }
fields-content f =
    ap
      (λ p. record {
        version = f.version;
        seq = f.seq % 256;
        flag = f.flag;
        frame_type = f.frame_type;
        payload = p;
      })
      (counted_payload f.payload)

-- A frame of bytes builds to its body between the start and end marks, and the body parses to the
-- frame with its sequence number modulo 256.
pub parse-build :
    (f : Frame)
    → IsFrame f
    → (build f ≡ some (sof_sequence ++ body f ++ eof_sequence))
      × (parse (body f) ≡ some (record f { seq = f.seq % 256 }))
unfolding parse
parse-build f h =
    let lt = crc16_modbus-lt (content f) (content_bytes f h) in
    (
      build-body f h,
      ap parse_unescaped (unescape_data-escape_data (content f ++ crc_of f))
          ∙ parse_unescaped-append (content f) _ _ (omega arith)
          ∙ check_content-crc (content f) lt (omega arith)
          ∙ ap some (fields-content f),
    )

-- A frame with up to 24 bytes of payload fits the filter's buffer, however it is escaped.
pub length-body : (f : Frame) → length f.payload ≤ 24 → length (body f) < max_frame_buffer_size
length-body f h =
    omega
      (arith, length-escape_data (content f ++ crc_of f), length-append {0} (content f) (crc_of f))
