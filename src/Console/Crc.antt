-- ===== src/Console/Crc.antt =====
-- `crc16_modbus` of scripts/console-monitor.
use Prim.Native.Nat.{bit_xor}
use sonic_host_services.Base.{
  ℕ, zero, suc, ◌/◌, ◌%◌, ◌^◌, ◌<◌, List, [], ◌∷◌, arith, ◌==◌, All, if◌then◌else◌,
}
use sonic_host_services.Base.Bits.{bit_xor-lt}

-- The body of the inner loop.
crc_round : ℕ → ℕ
crc_round crc = if crc % 2 == 1 then bit_xor (crc / 2) 0xA001 else crc / 2

-- `for _ in range(8)`
crc_rounds : ℕ → ℕ → ℕ
crc_rounds zero crc = crc
crc_rounds (suc n) crc = crc_rounds n (crc_round crc)

crc_from : ℕ → List ℕ → ℕ
crc_from crc [] = crc
crc_from crc (byte ∷ bytes) = crc_from (crc_rounds 8 (bit_xor crc byte)) bytes

unfoldable pub crc16_modbus : List ℕ → ℕ
unfolding crc_round crc_rounds crc_from
crc16_modbus bytes = crc_from 0xFFFF bytes

crc_round-lt : (crc : ℕ) → crc < 2 ^ 16 → crc_round crc < 2 ^ 16
unfolding crc_round
crc_round-lt crc h = ground (arith, bit_xor-lt 16 (crc / 2) 0xA001 (omega arith) (omega arith))

crc_rounds-lt : (n crc : ℕ) → crc < 2 ^ 16 → crc_rounds n crc < 2 ^ 16
unfolding crc_rounds
crc_rounds-lt zero crc h = h
crc_rounds-lt (suc n) crc h = crc_rounds-lt n (crc_round crc) (crc_round-lt crc h)

crc_from-lt :
    (crc : ℕ) (bytes : List ℕ)
    → crc < 2 ^ 16
    → All (λ b. b < 256) bytes
    → crc_from crc bytes < 2 ^ 16
unfolding crc_from
crc_from-lt crc [] h hb = h
crc_from-lt crc (b ∷ bytes) h hb =
    crc_from-lt (crc_rounds 8 (bit_xor crc b)) bytes
      (crc_rounds-lt 8 (bit_xor crc b) (bit_xor-lt 16 crc b h (omega arith))) hb.1

-- The checksum of bytes fits in two bytes.
pub crc16_modbus-lt : (bytes : List ℕ) → All (λ b. b < 256) bytes → crc16_modbus bytes < 65536
unfolding crc16_modbus
crc16_modbus-lt bytes h = crc_from-lt 0xFFFF bytes (omega arith) h
