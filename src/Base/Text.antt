-- ===== src/Base/Text.antt =====
-- Texts as lists of code points, for code that looks into them.
use Prim.Native.Nat.{ℕ}
use Prim.Native.Char.{code}
use Prim.Native.String.{String}
use mathlib.Core.Path.{◌≡◌, refl}
use mathlib.Core.Bool.{Bool, true, false, ◌&&◌, ◌||◌}
use mathlib.Core.List.{List, [], ◌∷◌, ◌++◌}
use native.Mathlib.Omega.{arith}
use sonic_host_services.Base.Tests.{◌==◌, leb, if◌then◌else◌}

abbrev pub Text : Type 0
Text = List ℕ

abbrev pub codes : String → Text
codes String.[] = []
codes (String.◌∷◌ c s) = code c ∷ codes s

-- `==` of two texts
unfoldable pub text_eq : Text → Text → Bool
text_eq [] [] = true
text_eq (c ∷ s) (d ∷ t) = c == d && text_eq s t
text_eq _ _ = false

-- `line.startswith(prefix)`
unfoldable pub startswith : Text → Text → Bool
startswith line [] = true
startswith [] (c ∷ prefix) = false
startswith (d ∷ line) (c ∷ prefix) = d == c && startswith line prefix

pub startswith-append :
    (prefix rest more : Text) → startswith (prefix ++ rest) (prefix ++ more) ≡ startswith rest more
unfolding startswith
startswith-append [] rest more = refl
startswith-append (c ∷ prefix) rest more = ground (arith, startswith-append prefix rest more)

-- What starts with a longer text starts with a shorter one.
pub startswith_shorter :
    (line prefix more : Text)
    → startswith line prefix ≡ false
    → startswith line (prefix ++ more) ≡ false
unfolding startswith
startswith_shorter line [] more h = cc
startswith_shorter [] (c ∷ prefix) more h = refl
startswith_shorter (d ∷ line) (c ∷ prefix) more h =
    ground (arith, startswith_shorter line prefix more)

-- `part in text`
unfoldable pub occurs : Text → Text → Bool
occurs part [] = startswith [] part
occurs part (c ∷ s) = startswith (c ∷ s) part || occurs part s

-- str.strip, in two steps.
abbrev pub is_space : ℕ → Bool
is_space c = c == 32 || leb 9 c && leb c 13

unfoldable pub lstrip : Text → Text
lstrip [] = []
lstrip (c ∷ text) = let rest = lstrip text in if is_space c then rest else c ∷ text

unfoldable pub rstrip : Text → Text
rstrip [] = []
rstrip (c ∷ text) = add_stripped c (rstrip text)
  where
    add_stripped : ℕ → Text → Text
    add_stripped c (d ∷ rest) = c ∷ d ∷ rest
    add_stripped c [] = if is_space c then [] else c ∷ []
