-- ===== src/Base/Set.antt =====
-- Python's `set` of texts, as a list of its members in the order of iteration.
use Prim.Native.String.{String}
use mathlib.Core.Path.{◌≡◌, refl}
use mathlib.Core.Bool.{Bool, false, ◌&&◌, ◌||◌, not}
use mathlib.Core.List.{List, [], ◌∷◌, ◌++◌}
use native.Mathlib.Omega.{arith}
use text.Mathlib.Text.{◌==◌ as str_eq}
use text.Mathlib.TextEquality.{eq_iff}
use sonic_host_services.Base.Tests.{if◌then◌else◌}

-- `x in s`
unfoldable pub contains : String → List String → Bool
contains x [] = false
contains x (y ∷ s) = str_eq y x || contains x s

-- `s.add(x)`
unfoldable pub add : String → List String → List String
unfolding contains
add x s = if contains x s then s else s ++ x ∷ []

-- `s.discard(x)`
unfoldable pub discard : String → List String → List String
discard x [] = []
discard x (y ∷ s) = let rest = discard x s in if str_eq y x then rest else y ∷ rest

-- The members that pass a test: `s - t` and `s & t`.
unfoldable pub filter : (String → Bool) → List String → List String
filter p [] = []
filter p (x ∷ s) = let rest = filter p s in if p x then x ∷ rest else rest

pub contains-append :
    (x : String) (s t : List String) → contains x (s ++ t) ≡ (contains x s || contains x t)
unfolding contains
contains-append x [] t = refl
contains-append x (y ∷ s) t = ground (arith, contains-append x s t)

pub contains-add :
    (x y : String) (s : List String) → contains x (add y s) ≡ (str_eq y x || contains x s)
unfolding add contains
contains-add x y s = ground (arith, contains-append x s (y ∷ []), eq_iff y x, contains_eq x y s)
  where
    contains_eq : (x y : String) (s : List String) → y ≡ x → contains x s ≡ contains y s
    contains_eq x y s e = cc

pub contains-discard :
    (x y : String) (s : List String) → contains x (discard y s) ≡ (not (str_eq y x) && contains x s)
unfolding discard contains
contains-discard x y [] = ground arith
contains-discard x y (z ∷ s) =
    ground (arith, contains-discard x y s, eq_iff z y, eq_iff z x, eq_iff y x)

pub contains-filter :
    (x : String) (p : String → Bool) (s : List String)
    → contains x (filter p s) ≡ (p x && contains x s)
unfolding filter contains
contains-filter x p [] = ground arith
contains-filter x p (y ∷ s) = ground (arith, contains-filter x p s, eq_iff y x)
