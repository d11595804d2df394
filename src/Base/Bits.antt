-- ===== src/Base/Bits.antt =====
-- Facts about `bit_xor` and `bit_or` at variables, from the digit recursion that they stand for.
use Prim.Native.Nat.{ℕ, zero, suc, ◌+◌, ◌*◌, ◌/◌, ◌%◌, ◌≤◌, ◌<◌, ◌^◌, max, bit_or, bit_xor}
use Prim.Native.Nat.{digits, differ, bit_or-bitwise, bit_xor-bitwise}
use mathlib.Core.Path.{◌≡◌, refl}
use native.Mathlib.Omega.{arith}
use native.Mathlib.Nat.{pow-suc}

abbrev xor_digits : ℕ → ℕ → ℕ → ℕ
xor_digits = digits (λ b. b) differ

abbrev or_digits : ℕ → ℕ → ℕ → ℕ
or_digits = digits (λ b. b) max

differ-le_one : (x y : ℕ) → x ≤ 1 → y ≤ 1 → differ x y ≤ 1
differ-le_one zero y p q = q
differ-le_one (suc x) zero p q = p
differ-le_one (suc zero) (suc y) p q = omega arith
differ-le_one (suc (suc x)) (suc y) p q = absurd (omega arith)

double-pow : (k : ℕ) → 2 ^ suc k ≡ 2 * 2 ^ k
double-pow k = omega (arith, pow-suc 2 k)

xor_digits-lt : (k n a b : ℕ) → a < 2 ^ k → b < 2 ^ k → xor_digits n a b < 2 ^ k
xor_digits-lt k zero a b p q = q
xor_digits-lt k (suc n) zero b p q = q
xor_digits-lt zero (suc n) (suc a) b p q = absurd (omega arith)
xor_digits-lt (suc k) (suc n) (suc a) b p q =
    let d = double-pow k in
    omega (
      arith,
      xor_digits-lt k n (suc a / 2) (b / 2) (omega arith) (omega arith),
      differ-le_one (suc a % 2) (b % 2) (omega arith) (omega arith),
    )

-- The exclusive or of two numbers of at most k bits has at most k bits.
pub bit_xor-lt : (k a b : ℕ) → a < 2 ^ k → b < 2 ^ k → bit_xor a b < 2 ^ k
bit_xor-lt k a b p q = rw (bit_xor-bitwise a b) (xor_digits-lt k a a b p q)

or_digits-zero : (n a : ℕ) → a ≤ n → or_digits n a 0 ≡ a
or_digits-zero zero a h = omega arith
or_digits-zero (suc n) zero h = refl
or_digits-zero (suc n) (suc a) h = omega (arith, or_digits-zero n (suc a / 2) (omega arith))

or_digits-shift :
    (k n a h l : ℕ) → a ≤ n → a ≡ h * 2 ^ k → l < 2 ^ k → or_digits n a l ≡ h * 2 ^ k + l
or_digits-shift k zero a h l fits e q = omega arith
or_digits-shift k (suc n) zero h l fits e q = omega arith
or_digits-shift zero (suc n) (suc a) h zero fits e q =
    omega (arith, or_digits-zero (suc n) (suc a) fits)
or_digits-shift zero (suc n) (suc a) h (suc l) fits e q = absurd (omega arith)
or_digits-shift (suc k) (suc n) (suc a) h l fits e q =
    let d = double-pow k in
    let e' : suc a ≡ 2 * (h * 2 ^ k) = omega (arith, ap_times h d) in
    omega
      (arith, or_digits-shift k n (suc a / 2) h (l / 2) (omega arith) (omega arith) (omega arith))
  where
    ap_times : {x y : ℕ} (h : ℕ) → x ≡ y → h * x ≡ h * y
    ap_times h p = rw p

-- A shifted number and one that fits below it: `|` is `+`.
pub bit_or_shift : (k h l : ℕ) → l < 2 ^ k → bit_or (h * 2 ^ k) l ≡ h * 2 ^ k + l
bit_or_shift k h l q =
    rw (bit_or-bitwise (h * 2 ^ k) l)
      (or_digits-shift k (h * 2 ^ k) (h * 2 ^ k) h l (omega arith) refl q)
