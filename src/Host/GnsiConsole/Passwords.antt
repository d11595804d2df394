-- ===== src/Host/GnsiConsole/Passwords.antt =====
-- What a change of one user's password does to the lines of the password file.
use sonic_host_services.Base.{
  ◌∙◌, ℕ, true, false, [], ◌∷◌, ◌++◌, ◌≡◌, ◌≢◌, refl, ap, ◌⊎◌, inl, inr, arith, if◌then◌else◌,
}
use sonic_host_services.Base.{map}
use sonic_host_services.Base.Text.{Text, codes, startswith, startswith-append, startswith_shorter}
use sonic_host_services.Host.GnsiConsole.{
  Lines, update_password_if_user_found, trailing_password_info,
}

-- The line that a change of a password writes.
abbrev pub new_line : Text → Text → Text
new_line name password = name ++ (codes ":" ++ (password ++ trailing_password_info))

abbrev pub with_prefix : Text → Lines → Lines
with_prefix p [] = []
with_prefix p (line ∷ lines) =
    let rest = with_prefix p lines in if startswith line p then line ∷ rest else rest

startswith-colon : (more rest : Text) (c : ℕ) → c ≢ 58 → startswith (58 ∷ more) (c ∷ rest) ≡ false
unfolding startswith
startswith-colon more rest c ne = ground arith

new_line-longer :
    (name password rest : Text) (c : ℕ)
    → c ≢ 58
    → startswith (new_line name password) (name ++ c ∷ rest) ≡ false
unfolding startswith
new_line-longer name password rest c ne =
    startswith-append name (codes ":" ++ (password ++ trailing_password_info)) (c ∷ rest)
    ∙ startswith-colon (password ++ trailing_password_info) rest c ne

-- After a change of the password of `name`, no line begins with `name` and a character that is not
-- a colon: the entries of the users whose names go on after it are overwritten.
pub with_prefix-update_longer :
    (name password rest : Text) (c : ℕ) (lines : Lines)
    → c ≢ 58
    → with_prefix (name ++ c ∷ rest) (update_password_if_user_found name password lines) ≡ []
unfolding update_password_if_user_found
with_prefix-update_longer name password rest c [] ne = refl
with_prefix-update_longer name password rest c (line ∷ lines) ne = ground (
  arith,
  with_prefix-update_longer name password rest c lines ne,
  new_line-longer name password rest c ne,
  startswith_shorter line name (c ∷ rest),
)

-- A change keeps the number of lines, and replaces exactly the lines that begin with the name.
pub update_password-map :
    (name password : Text) (lines : Lines)
    → update_password_if_user_found name password lines
      ≡ map (λ (line : Text). if startswith line name then new_line name password else line) lines
unfolding update_password_if_user_found
update_password-map name password [] = refl
update_password-map name password (line ∷ lines) =
    ap (λ ls. (if startswith line name then new_line name password else line) ∷ ls)
      (update_password-map name password lines)

-- Two beginnings of one text: one of them begins with the other.
comparable :
    (line p q : Text)
    → startswith line p ≡ true
    → startswith line q ≡ true
    → (startswith p q ≡ true) ⊎ (startswith q p ≡ true)
unfolding startswith
comparable line [] q h k = inr refl
comparable line (c ∷ p) [] h k = inl refl
comparable [] (c ∷ p) (d ∷ q) h k = ground arith
comparable (x ∷ line) (c ∷ p) (d ∷ q) h k = ground (arith, comparable line p q)

-- A change of the password of `name` keeps the lines that begin with a prefix, if the prefix and
-- the name do not begin with one another and the new line does not begin with the prefix.
pub with_prefix-update_other :
    (name password prefix : Text) (lines : Lines)
    → startswith (new_line name password) prefix ≡ false
    → startswith prefix name ≡ false
    → startswith name prefix ≡ false
    → with_prefix prefix (update_password_if_user_found name password lines)
      ≡ with_prefix prefix lines
unfolding update_password_if_user_found
with_prefix-update_other name password prefix [] a b d = refl
with_prefix-update_other name password prefix (line ∷ lines) a b d =
    ground (
      arith,
      with_prefix-update_other name password prefix lines a b d,
      comparable line name prefix,
    )
