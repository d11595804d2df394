-- ===== src/Cacl/Parse.antt =====
-- What scripts/caclmgrd uses of Python on texts: int(), the order of texts, sorted(), and its
-- parse_int_to_tcp_flags.
pub mod Order
use sonic_host_services.Base.{
  ◌>>=◌, ℕ, suc, Bool, true, false, ◌&&◌, ◌||◌, Option, none, some, List, [], ◌∷◌, ◌++◌, String,
  ◌==◌, leb, ltb, ◌+◌, ◌-◌, ◌*◌, ◌/◌, ◌%◌, ◌^◌, if◌then◌else◌,
}
use sonic_host_services.Base.Text.{Text, codes, lstrip, rstrip}

-- The value of a character in base 10 or 16.
unfoldable pub digit : ℕ → ℕ → Option ℕ
digit base c =
    if leb 48 c && leb c 57
    then some (c - 48)
    else if base == 16 && leb 97 c && leb c 102
    then some (c - 87)
    else if base == 16 && leb 65 c && leb c 70
    then some (c - 55)
    else none

unfoldable pub int_digits : ℕ → ℕ → Text → Option ℕ
int_digits base n [] = some n
int_digits base n (c ∷ s) = do d ← digit base c; int_digits base (n * base + d) s

-- At least one digit.
abbrev pub int_nonempty : ℕ → Text → Option ℕ
int_nonempty base [] = none
int_nonempty base (c ∷ s) = int_digits base 0 (c ∷ s)

abbrev pub drop_0x : ℕ → Text → Text
drop_0x base (c ∷ d ∷ s) = if base == 16 && c == 48 && (d == 120 || d == 88) then s else c ∷ d ∷ s
drop_0x base s = s

-- `int(text, base)` for bases 10 and 16, `none` if it raises; signs and underscores are left out.
unfoldable pub int_of : ℕ → Text → Option ℕ
int_of base s = int_nonempty base (drop_0x base (rstrip (lstrip s)))

-- `s < t` of two texts, by code points.
unfoldable pub text_lt : Text → Text → Bool
text_lt s [] = false
text_lt [] (d ∷ t) = true
text_lt (c ∷ s) (d ∷ t) = let rest = text_lt s t in ltb c d || c == d && rest

-- `sorted(texts, reverse=True)`
unfoldable pub insert_desc : String → List String → List String
insert_desc p [] = p ∷ []
insert_desc p (q ∷ qs) =
    let rest = insert_desc p qs in if text_lt (codes p) (codes q) then q ∷ rest else p ∷ q ∷ qs

unfoldable pub sorted_desc : List String → List String
sorted_desc [] = []
sorted_desc (p ∷ ps) = insert_desc p (sorted_desc ps)

-- Bit `k` of `v`, as `v & (1 << k)` tests it.
abbrev pub bit : ℕ → ℕ → Bool
bit k v = v / 2 ^ k % 2 == 1

abbrev pub flag : Bool → String → Text
flag b name = if b then codes name else []

-- `text[:-1]`
abbrev pub drop_last : Text → Text
drop_last [] = []
drop_last (c ∷ []) = []
drop_last (c ∷ d ∷ s) = c ∷ drop_last (d ∷ s)

unfoldable pub parse_int_to_tcp_flags : ℕ → Text
parse_int_to_tcp_flags hex_value = drop_last (
    flag (bit 0 hex_value) "FIN,"
    ++ flag (bit 1 hex_value) "SYN,"
    ++ flag (bit 2 hex_value) "RST,"
    ++ flag (bit 3 hex_value) "PSH,"
    ++ flag (bit 4 hex_value) "ACK,"
    ++ flag (bit 5 hex_value) "URG,")
