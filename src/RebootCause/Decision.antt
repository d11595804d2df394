-- ===== src/RebootCause/Decision.antt =====
-- Which cause of a reboot is reported.
use sonic_host_services.Base.{
  Bool, true, false, ◌&&◌, ◌||◌, Option, none, some, [], ◌∷◌, ◌≡◌, refl, ap, sym, subst, arith,
  ==_iff,
}
use sonic_host_services.Base.Text.{Text, codes, text_eq, occurs, startswith}
use sonic_host_services.RebootCause.{
  other, unknown, not_available, Boot, Files, decide, determine_reboot_cause,
  find_software_reboot_cause, main, is_hardware, software_or_cmdline, find_hardware_reboot_cause,
  parse_warmfast_reboot_from_proc_cmdline,
}
use sonic_host_services.RebootCause.Expression.{until_newline}

-- The text is about a panic of the kernel or about the loss of the supervisor card.
abbrev pub IsSevere : Text → Type 0
IsSevere text =
    (occurs (codes "Kernel Panic") text
      || occurs (codes "Heartbeat with the Supervisor card lost") text)
    ≡ true

severe_not_hardware : (text hardware : Text) → IsSevere text → is_hardware text hardware ≡ false
severe_not_hardware text hardware h = ground arith

text_eq_sound : (s t : Text) → text_eq s t ≡ true → s ≡ t
unfolding text_eq
text_eq_sound [] [] h = refl
text_eq_sound [] (d ∷ t) h = cc
text_eq_sound (c ∷ s) [] h = cc
text_eq_sound (c ∷ s) (d ∷ t) h = ground (arith, ==_iff c d, text_eq_sound s t)

software_text :
    (text : Text) (cmdline : Option Text) → software_or_cmdline (other text) cmdline ≡ text
software_text text none = refl
software_text text (some c) = refl

unknown_not_severe : IsSevere unknown → true ≡ false
unfolding occurs startswith
unknown_not_severe h = sym h

severe_not_unknown : (text : Text) → IsSevere text → text_eq text unknown ≡ false
severe_not_unknown text h = by_equality (text_eq text unknown) refl
  where
    by_equality : (b : Bool) → text_eq text unknown ≡ b → b ≡ false
    by_equality false e = refl
    by_equality true e = unknown_not_severe (subst IsSevere (text_eq_sound text unknown e) h)

not_first : {a : Bool} (b : Bool) → a ≡ false → (a && b) ≡ false
not_first b h = ap (λ x. x && b) h

find_software-left :
    (version : Option Text) (f : Files) (file : Text)
    → f.reboot_cause_file ≡ some file
    → (text_eq (until_newline file) unknown && f.first_boot) ≡ false
    → find_software_reboot_cause version f ≡ (other (until_newline file), false)
unfolding find_software_reboot_cause
find_software-left version f file e k = rw (e, k) refl

decide-left :
    (cmdline : Option Text) (hardware text : Text)
    → is_hardware text hardware ≡ false
    → decide cmdline hardware (other text) ≡ (text, not_available)
unfolding decide
decide-left cmdline hardware text k = rw (k, software_text text cmdline) refl

-- A panic of the kernel and the loss of the supervisor card are the cause that is reported, whatever
-- the platform and the command line of the kernel say.
pub determine_reboot_cause-severe :
    (b : Boot) (f : Files) (file : Text)
    → f.reboot_cause_file ≡ some file
    → IsSevere (until_newline file)
    → determine_reboot_cause b f ≡ ((until_newline file, not_available), false)
unfolding determine_reboot_cause
determine_reboot_cause-severe b f file e h =
    rw
      (
        find_software-left b.build_version f file e
            (not_first f.first_boot (severe_not_unknown (until_newline file) h)),
        decide-left (parse_warmfast_reboot_from_proc_cmdline b.proc_cmdline)
            (find_hardware_reboot_cause b.platform) (until_newline file)
            (severe_not_hardware (until_newline file) (find_hardware_reboot_cause b.platform) h),
      )
      refl

-- After a run of the program, if nothing writes a cause and no boot is the first: the next run, on a
-- platform without hardware causes, reports the cause as unknown, whatever the command line of the
-- kernel says.
pub determine_reboot_cause-main :
    (b next : Boot) (f : Files)
    → f.first_boot ≡ false
    → next.platform ≡ none
    → (determine_reboot_cause next (main b f).1).0 ≡ (unknown, not_available)
unfolding determine_reboot_cause main until_newline occurs startswith
determine_reboot_cause-main b next f h p =
    rw
      (
        find_software-left next.build_version (main b f).1 unknown refl (ground arith),
        p,
        decide-left (parse_warmfast_reboot_from_proc_cmdline next.proc_cmdline)
            (codes "Non-Hardware (N/A)") unknown refl,
      )
      refl
