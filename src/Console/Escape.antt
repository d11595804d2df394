-- ===== src/Console/Escape.antt =====
-- `SpecialChar`, `escape_data` and `unescape_data` of scripts/console-monitor.
use sonic_host_services.Base.{
  ℕ, ◌*◌, ◌≤◌, ◌≡◌, refl, Bool, false, ◌&&◌, ◌||◌, List, [], ◌∷◌, arith, ◌==◌, length,
  if◌then◌else◌,
}

-- SpecialChar.SOF, SpecialChar.EOF, SpecialChar.DLE
abbrev pub sof : ℕ
sof = 0x05

abbrev pub eof : ℕ
eof = 0x00

abbrev pub dle : ℕ
dle = 0x10

-- `byte in ESCAPABLE_CHARS`
abbrev pub is_escapable : ℕ → Bool
is_escapable b = b == sof || b == eof || b == dle

unfoldable pub escape_data : List ℕ → List ℕ
escape_data [] = []
escape_data (b ∷ bs) =
    let rest = escape_data bs in if is_escapable b then dle ∷ b ∷ rest else b ∷ rest

-- The recursion is the `while` loop from index i; what is bound by `let` is read on demand.
unfoldable pub unescape_data : List ℕ → List ℕ
unescape_data [] = []
unescape_data (a ∷ []) = a ∷ []
unescape_data (a ∷ b ∷ r) =
    let taken = b ∷ unescape_data r in
    let kept = a ∷ unescape_data (b ∷ r) in if a == dle && is_escapable b then taken else kept

unescape_data-plain :
    (a : ℕ) (xs : List ℕ) → (a == dle) ≡ false → unescape_data (a ∷ xs) ≡ a ∷ unescape_data xs
unfolding unescape_data
unescape_data-plain a [] h = refl
unescape_data-plain a (b ∷ r) h = ground arith

-- Unescaping escaped data gives the data back.
pub unescape_data-escape_data : (xs : List ℕ) → unescape_data (escape_data xs) ≡ xs
unfolding escape_data unescape_data
unescape_data-escape_data [] = refl
unescape_data-escape_data (b ∷ bs) =
    ground (arith, unescape_data-escape_data bs, unescape_data-plain b (escape_data bs))

pub length-escape_data : (xs : List ℕ) → length (escape_data xs) ≤ 2 * length xs
unfolding escape_data
length-escape_data [] = omega arith
length-escape_data (b ∷ bs) = ground (arith, length-escape_data bs)
