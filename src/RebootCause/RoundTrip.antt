-- ===== src/RebootCause/RoundTrip.antt =====
-- The report about a reboot that a user issued.
use sonic_host_services.Base.{
  Bool, ◌==◌, if◌then◌else◌, ℕ, true, false, Option, none, some, [], ◌∷◌, ◌++◌, Bool, ◌≡◌, refl,
  arith, drop-append_length,
}
use sonic_host_services.Base.Text.{Text, codes, startswith, occurs}
use sonic_host_services.Host.Image.Listing.{has, has-append}
use sonic_host_services.RebootCause.{report, get_reboot_cause_dict}
use sonic_host_services.RebootCause.Expression.{
  greedy, search, search_user, match_command, match_user, match_time, anything,
}

startswith_self : (s t : Text) → startswith (s ++ t) s ≡ true
unfolding startswith
startswith_self [] t = refl
startswith_self (c ∷ s) t = ground (arith, startswith_self s t)

if_none : {A : Type 0} (b : Bool) → ◌≡◌ {A = Option A} (if b then none else none) none
if_none true = refl
if_none false = refl

head_no_line_end : (c : ℕ) (s : Text) → has 10 (c ∷ s) ≡ false → (c == 10) ≡ false
unfolding has
head_no_line_end c s h = ground arith

tail_no_line_end : (c : ℕ) (s : Text) → has 10 (c ∷ s) ≡ false → has 10 s ≡ false
unfolding has
tail_no_line_end c s h = ground arith

module _ {R : Type 0} (q : ℕ) (sep : Text) (follow : Text → Option R) where
  startswith-none :
      (c : ℕ) (s : Text) → has q (c ∷ s) ≡ false → startswith (c ∷ s) (q ∷ sep) ≡ false
  unfolding has startswith
  startswith-none c s h = ground arith

  has-tail : (c : ℕ) (s : Text) → has q (c ∷ s) ≡ false → has q s ≡ false
  unfolding has
  has-tail c s h = ground arith

  greedy-none : (s : Text) → has q s ≡ false → greedy (q ∷ sep) follow s ≡ none
  unfolding greedy
  greedy-none [] h = refl
  greedy-none (c ∷ s) h =
      rw (startswith-none c s h, greedy-none s (has-tail c s h), if_none (c == 10)) refl

  -- The separator stands where its first character stands last.
  greedy_last :
      (group rest : Text) (r : R)
      → has 10 group ≡ false
      → has q (sep ++ rest) ≡ false
      → follow rest ≡ some r
      → greedy (q ∷ sep) follow (group ++ q ∷ (sep ++ rest)) ≡ some (group, r)
  unfolding greedy
  greedy_last [] rest r n h f =
      rw
        (
          greedy-none (sep ++ rest) h,
          if_none (q == 10),
          startswith_self (q ∷ sep) rest,
          drop-append_length sep rest,
          f,
        )
        refl
  greedy_last (c ∷ group) rest r n h f =
      rw (head_no_line_end c group n, greedy_last group rest r (tail_no_line_end c group n) h f)
        refl

-- The parts of the text that a command of a user leaves.
abbrev pub bracket : Text → Text
bracket time = time ++ codes "]"

abbrev pub after_user : Text → Text → Text
after_user user time = user ++ (codes ", Time: " ++ bracket time)

abbrev pub user_issued : Text → Text → Text → Text
user_issued command user time =
    codes "User issued '" ++ (command ++ (codes "' command [User: " ++ after_user user time))

match_time-bracket :
    (time : Text) → has 10 time ≡ false → match_time (bracket time) ≡ some (time, [])
unfolding has
match_time-bracket time n = greedy_last 93 [] anything time [] [] n refl refl

match_user-after_user :
    (user time : Text)
    → has 10 user ≡ false
    → has 10 time ≡ false
    → has 44 time ≡ false
    → match_user (after_user user time) ≡ some (user, (time, []))
unfolding has
match_user-after_user user time m n h =
    greedy_last 44 (codes " Time: ") match_time user (bracket time) (time, []) m
      (no_comma (codes "]") refl) (match_time-bracket time n)
  where
    no_comma : (s : Text) → has 44 s ≡ false → has 44 (codes " Time: " ++ (time ++ s)) ≡ false
    no_comma s k = ground (arith, has-append 44 time s)

match_command-user_issued :
    (command user time : Text)
    → has 10 command ≡ false
    → has 10 user ≡ false
    → has 10 time ≡ false
    → has 39 user ≡ false
    → has 39 time ≡ false
    → has 44 time ≡ false
    → match_command (command ++ (codes "' command [User: " ++ after_user user time))
      ≡ some (command, (user, (time, [])))
unfolding has
match_command-user_issued command user time l m n g h k =
    greedy_last 39 (codes " command [User: ") match_user command (after_user user time)
      (user, (time, [])) l
      (ground (
        arith,
        has-append 39 user (codes ", Time: " ++ bracket time),
        has-append 39 time (codes "]"),
      ))
      (match_user-after_user user time m n k)

search_user-user_issued :
    (command user time : Text)
    → has 10 command ≡ false
    → has 10 user ≡ false
    → has 10 time ≡ false
    → has 39 user ≡ false
    → has 39 time ≡ false
    → has 44 time ≡ false
    → search_user (user_issued command user time)
      ≡ some (record { command = command; user = user; time = time })
unfolding search_user search startswith
search_user-user_issued command user time l m n g h k =
    rw (match_command-user_issued command user time l m n g h k) refl

-- If a user issued a command, then the report has the command, the user and the time of the text
-- that was left, provided that none of them has a line end, neither the user nor the time has a
-- quote and the time has no comma.
pub get_reboot_cause_dict-user_issued :
    (command user time comment : Text)
    → has 10 command ≡ false
    → has 10 user ≡ false
    → has 10 time ≡ false
    → has 39 user ≡ false
    → has 39 time ≡ false
    → has 44 time ≡ false
    → get_reboot_cause_dict (user_issued command user time) comment
      ≡ report command user time comment
unfolding get_reboot_cause_dict occurs startswith
get_reboot_cause_dict-user_issued command user time comment l m n g h k =
    rw (search_user-user_issued command user time l m n g h k) refl
