-- ===== src/Hostcfg/Ssh/Ranges.antt =====
-- What can get into sshd_config.
use sonic_host_services.Base.{
  ℕ, Bool, true, false, Option, none, some, List, [], ◌∷◌, ◌++◌, ◌*◌, ◌≤◌, ◌≡◌, refl, sym, subst,
  ◌∙◌, arith, leb→le, String, str_eq, eq_iff, if◌then◌else◌, ◌>>=◌, All, All-append, by_test,
}
use mathlib.Core.Option.{some-injective}
use sonic_host_services.Base.Dict.{lookup}
use sonic_host_services.Hostcfg.Ssh.{
  Value, one, many, flag, int_bounds, config_names, int_of_value, is_within, Edit, delete_ports,
  insert_port, set_option, set_seconds, port_bounds, check_ports, insert_ports, Verdict, edits,
  returns, raises, ports_verdict, set_ports, handle_ports_set, seconds_of, edit_of, checked,
  bounded, set_policy, Ending, left, replaced, removed, verified, continue_with, set_policies,
  chars,
}

-- The value is a number that is not negative, from `low` to `high`.
abbrev pub Between : ℕ → ℕ → Value → Type 0
Between low high value = (n : ℕ) × (int_of_value value ≡ some (false, n)) × (low ≤ n) × (n ≤ high)

-- The ranges of the policies that have one and are written to sshd_config: the ports, the retries,
-- the timeout of the login, and the timeout of inactivity in seconds.
abbrev pub ValidEdit : Edit → Type 0
ValidEdit delete_ports = Unit
ValidEdit (insert_port port) = Between 1 65535 (one port)
ValidEdit (set_option key value) =
    (key ≡ "authentication_retries" → Between 3 100 value)
    × (key ≡ "login_timeout" → Between 1 600 value)
ValidEdit (set_seconds n) = n ≤ 35000 * 60

-- The value is a number within the bounds.
abbrev Within : ℕ × ℕ → Value → Type 0
Within bounds value = (n : Bool × ℕ) × ((int_of_value value ≡ some n) × (is_within bounds n ≡ true))

Within-Between : (low high : ℕ) (value : Value) → Within (low, high) value → Between low high value
Within-Between low high value ((true, n), (e, h)) = cc
Within-Between low high value ((false, n), (e, h)) =
    (n, e, ground (arith, leb→le low n), ground (arith, leb→le n high))

abbrev ValidVerdict : Verdict → Type 0
ValidVerdict (edits more) = All ValidEdit more
ValidVerdict returns = Unit
ValidVerdict raises = Unit

if_some-true :
    (b : Bool) (o : Option Bool)
    → (if b then o else some false) ≡ some true
    → (b ≡ true) × (o ≡ some true)
if_some-true true o h = (refl, h)
if_some-true false o h = cc

check_ports-Within :
    (ports : List String) → check_ports ports ≡ some true → All ValidEdit (insert_ports ports)
unfolding check_ports
check_ports-Within [] h = tt
check_ports-Within (port ∷ ports) h =
    of_number (int_of_value (one port)) refl (check_ports-Within ports) h
  where
    of_number :
        (o : Option (Bool × ℕ))
        → int_of_value (one port) ≡ o
        → (check_ports ports ≡ some true → All ValidEdit (insert_ports ports))
        → (o >>= λ n. if is_within port_bounds n then check_ports ports else some false) ≡ some true
        → All ValidEdit (insert_ports (port ∷ ports))
    of_number none e rest k = cc
    of_number (some n) e rest k =
        let both = if_some-true (is_within port_bounds n) (check_ports ports) k in
        (Within-Between 1 65535 (one port) (n, (e, both.0)), rest both.1)

set_ports-Valid : (ports : List String) → ValidVerdict (set_ports ports)
set_ports-Valid [] = tt
set_ports-Valid (port ∷ ports) = of_check (check_ports (port ∷ ports)) refl
  where
    of_check :
        (o : Option Bool)
        → check_ports (port ∷ ports) ≡ o
        → ValidVerdict (ports_verdict (port ∷ ports) o)
    of_check none e = tt
    of_check (some false) e = tt
    of_check (some true) e = (tt, check_ports-Within (port ∷ ports) e)

handle_ports_set-Valid : (value : Value) → ValidVerdict (handle_ports_set value)
unfolding handle_ports_set
handle_ports_set-Valid (many ports) = set_ports-Valid ports
handle_ports_set-Valid (one s) = set_ports-Valid (chars s)
handle_ports_set-Valid (flag b) = tt

-- The value fits the bounds of its key, if it has any.
abbrev Fits : String → Value → Type 0
Fits key value = (bounds : ℕ × ℕ) → lookup key int_bounds ≡ some bounds → Within bounds value

is_within_le : (n : Bool × ℕ) → is_within (0, 35000) n ≡ true → n.1 * 60 ≤ 35000 * 60
is_within_le n h = ground (arith, leb→le n.1 35000)

seconds_of-Valid :
    (o : Option (Bool × ℕ)) (value : Value)
    → int_of_value value ≡ o
    → Within (0, 35000) value
    → ValidVerdict (seconds_of o)
seconds_of-Valid none value e w = tt
seconds_of-Valid (some n) value e w = (
  subst (λ (x : Bool × ℕ). x.1 * 60 ≤ 35000 * 60) (some-injective w.0 n (sym w.1.0 ∙ e))
      (is_within_le w.0 w.1.1),
  tt,
)

inactivity_bounds : lookup "inactivity_timeout" int_bounds ≡ some (0, 35000)
unfolding lookup
inactivity_bounds = refl

retries_bounds : lookup "authentication_retries" int_bounds ≡ some (3, 100)
unfolding lookup
retries_bounds = refl

login_bounds : lookup "login_timeout" int_bounds ≡ some (1, 600)
unfolding lookup
login_bounds = refl

edit_of-Valid :
    (name : Option String) (key : String) (value : Value)
    → Fits key value
    → ValidVerdict (edit_of name key value)
edit_of-Valid none key value fits = tt
edit_of-Valid (some name) key value fits =
    by_test ValidVerdict (str_eq key "inactivity_timeout") (seconds_of (int_of_value value))
      (edits (set_option key value ∷ []))
      (λ e. seconds_of-Valid (int_of_value value) value refl (
        fits (0, 35000)
          (subst (λ k. lookup k int_bounds ≡ some (0, 35000))
            (sym ((eq_iff key "inactivity_timeout").0 e)) inactivity_bounds)))
      (λ e. (
        (
          (λ k. Within-Between 3 100 value (fits (3, 100) (bounds_of k retries_bounds))),
          (λ k. Within-Between 1 600 value (fits (1, 600) (bounds_of k login_bounds))),
        ),
        tt,
      ))
  where
    bounds_of :
        {name : String} {bounds : ℕ × ℕ}
        → key ≡ name
        → lookup name int_bounds ≡ some bounds
        → lookup key int_bounds ≡ some bounds
    bounds_of {bounds = bounds} k f = subst (λ x. lookup x int_bounds ≡ some bounds) (sym k) f

bounded-Valid :
    (found : Option (ℕ × ℕ)) (key : String) (value : Value) (name : Option String)
    → lookup key int_bounds ≡ found
    → ValidVerdict (bounded found value (edit_of name key value))
bounded-Valid none key value name e = edit_of-Valid name key value (λ bounds f. cc)
bounded-Valid (some bounds) key value name e = of_number (int_of_value value) refl
  where
    of_number :
        (o : Option (Bool × ℕ))
        → int_of_value value ≡ o
        → ValidVerdict (checked o bounds (edit_of name key value))
    of_number none f = tt
    of_number (some n) f =
        by_test ValidVerdict (is_within bounds n) (edit_of name key value) (edits [])
          (λ g. edit_of-Valid name key value (λ b k.
            (n, (f, subst (λ x. is_within x n ≡ true) (some-injective bounds b (sym e ∙ k)) g))))
          (λ g. tt)

set_policy-Valid : (key : String) (value : Value) → ValidVerdict (set_policy key value)
unfolding set_policy
set_policy-Valid key value =
    by_test ValidVerdict (str_eq key "ports") (handle_ports_set value) _
      (λ e. handle_ports_set-Valid value)
      (λ e. bounded-Valid (lookup key int_bounds) key value (lookup key config_names) refl)

-- A configuration that replaces sshd_config has valid edits only and was accepted; one that is
-- removed was not.
abbrev pub Safe : (List Edit → Bool) → Ending → Type 0
Safe sshd left = Unit
Safe sshd (replaced done) = All ValidEdit done × (sshd done ≡ true)
Safe sshd (removed done) = sshd done ≡ false

verified-Safe :
    (sshd : List Edit → Bool) (done : List Edit) (b : Bool)
    → sshd done ≡ b
    → All ValidEdit done
    → Safe sshd (verified b done)
verified-Safe sshd done true e h = (h, e)
verified-Safe sshd done false e h = e

-- Whatever the policies are: the copy of sshd_config replaces it only if sshd accepts the copy, and
-- then every port that the edits put in is from 1 to 65535, the number of retries from 3 to 100, the
-- timeout of the login from 1 to 600 and that of inactivity at most 35000 minutes, and a copy that
-- is removed was not accepted, if the edits before the policies are such edits.
pub set_policies-Safe :
    (sshd : List Edit → Bool) (policies : List (String × Value)) (done : List Edit)
    → All ValidEdit done
    → Safe sshd (set_policies sshd policies done)
unfolding set_policies
set_policies-Safe sshd [] done h = verified-Safe sshd done (sshd done) refl h
set_policies-Safe sshd ((key, value) ∷ policies) done h =
    after (set_policy key value) (set_policy-Valid key value) (λ more k.
      set_policies-Safe sshd policies (done ++ more) (All-append ValidEdit done more h k))
  where
    after :
        (verdict : Verdict)
        → ValidVerdict verdict
        → ((more : List Edit)
            → All ValidEdit more
            → Safe sshd (set_policies sshd policies (done ++ more)))
        → Safe sshd (continue_with verdict done (set_policies sshd policies))
    after (edits more) v rest = rest more v
    after returns v rest = tt
    after raises v rest = tt
