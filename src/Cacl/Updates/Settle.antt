-- ===== src/Cacl/Updates/Settle.antt =====
-- Changes of the rules are never passed over: the thread runs an update once they have stopped.
use sonic_host_services.Base.{
  ℕ, suc, false, Option, none, some, ltb, ◌<◌, ◌≤◌, ◌≡◌, refl, arith, lt→ltb, ltb→lt, ==_iff, ◌⊎◌,
  inl, inr, Bool-cases, subst, sym, ◌≢◌,
}
use sonic_host_services.Cacl.Updates.{
  Updates, wake, awake, Step, changes, notified, wakes, raises, Reachable, starts, steps, spawned,
  keep_waiting, finish,
}

-- The thread waits with a count that is positive and not above the number of changes, which is zero
-- while there is no thread.
abbrev pub Counted : Option ℕ → ℕ → Type 0
Counted none num_changes = num_changes ≡ 0
Counted (some waits_with) num_changes = (0 < waits_with) × (waits_with ≤ num_changes)

-- Without a thread and an unread notification, and unless a thread raised, the last update
-- was run with the rules that are configured.
pub record Invariant (s : Updates) : Type 0 where
  pub is_counted : Counted s.update_thread s.num_changes
  pub is_applied :
      s.has_exception ≡ false → s.update_thread ≡ none → s.unread ≡ 0 → s.applied ≡ s.configured

-- The branch of an error is never taken.
awake-cases :
    (n : ℕ) (s : Updates)
    → Counted (some n) s.num_changes
    → ((n < s.num_changes) × (awake n s ≡ keep_waiting s))
      ⊎ ((n ≡ s.num_changes) × (awake n s ≡ finish s.configured s.has_exception s))
unfolding awake
awake-cases n s h = elim (Bool-cases (ltb n s.num_changes)) [
  | inl e ↦ inl (ltb→lt n s.num_changes e, rw (e) refl)
  | inr e ↦
      let eq : n ≡ s.num_changes = ground (arith, lt→ltb n s.num_changes) in
      inr (eq, rw (e, (==_iff n s.num_changes).1 eq, lt→ltb 0 n h.0) refl)
]

wake-Invariant :
    (o : Option ℕ) (s : Updates) → s.update_thread ≡ o → Invariant s → Invariant (wake o s)
unfolding wake
wake-Invariant none s e h = h
wake-Invariant (some n) s e h =
    elim (awake-cases n s (subst (λ o. Counted o s.num_changes) e h.is_counted)) [
      | inl c ↦
          subst Invariant (sym c.1)
            (record { is_counted = (omega (arith, c.0), omega arith); is_applied = λ f g k. cc })
      | inr c ↦ subst Invariant (sym c.1) (record { is_counted = refl; is_applied = λ f g k. refl })
    ]

spawned-Counted : (o : Option ℕ) (n : ℕ) → Counted o n → Counted (spawned o (suc n)) (suc n)
spawned-Counted none n h = (omega arith, omega arith)
spawned-Counted (some m) n h = (h.0, omega (arith, h.1))

spawned_some : (o : Option ℕ) (n : ℕ) → spawned o n ≢ none
spawned_some none n e = cc
spawned_some (some m) n e = cc

step-Invariant : (s t : Updates) → Step s t → Invariant s → Invariant t
step-Invariant s t (changes) h = record { is_counted = h.is_counted; is_applied = λ e f g. cc }
step-Invariant s t (notified unread u) h = record {
  is_counted = spawned-Counted s.update_thread s.num_changes h.is_counted;
  is_applied = λ e f g. elim (spawned_some s.update_thread (suc s.num_changes) f) [ ];
}
step-Invariant s t (wakes) h = wake-Invariant s.update_thread s refl h
step-Invariant s t (raises applied) h = record { is_counted = refl; is_applied = λ e f g. cc }

reachable-Invariant : (version : ℕ) (s : Updates) → Reachable version s → Invariant s
reachable-Invariant version s (starts) = record { is_counted = refl; is_applied = λ e f g. refl }
reachable-Invariant version t (steps {s} r step) =
    step-Invariant s t step (reachable-Invariant version s r)

-- The thread wakes again.
abbrev pub wake_up : Updates → Updates
wake_up s = wake s.update_thread s

-- Whatever happened, no change is passed over: without a thread, an unread notification and an
-- exception, the last update was run with the rules that are configured, and a thread ends when it
-- has woken twice without a notification in between, after an update with the configured rules.
-- Whether the commands of an update succeed is left open.
pub record Settles (s : Updates) : Type 0 where
  pub at_rest :
      s.has_exception ≡ false → s.update_thread ≡ none → s.unread ≡ 0 → s.applied ≡ s.configured
  pub ends : (wake_up (wake_up s)).update_thread ≡ none
  pub in_force : s.update_thread ≢ none → (wake_up (wake_up s)).applied ≡ s.configured

Ended : ℕ → Updates → Type 0
Ended configured t = (t.update_thread ≡ none) × (t.applied ≡ configured)

waiting-Ended : (s : Updates) → 0 < s.num_changes → Ended s.configured (wake_up (keep_waiting s))
unfolding Ended wake
waiting-Ended s h = elim (awake-cases s.num_changes (keep_waiting s) (h, omega arith)) [
  | inl c ↦ (ground (arith, c.0), ground (arith, c.0))
  | inr c ↦ subst (Ended s.configured) (sym c.1) (refl, refl)
]

woken-Ended :
    (n : ℕ) (s : Updates)
    → Counted (some n) s.num_changes
    → Ended s.configured (wake_up (awake n s))
unfolding Ended wake
woken-Ended n s h = elim (awake-cases n s h) [
  | inl c ↦
      subst (λ t. Ended s.configured (wake_up t)) (sym c.1) (waiting-Ended s (omega (arith, c.0)))
  | inr c ↦ subst (λ t. Ended s.configured (wake_up t)) (sym c.1) (refl, refl)
]

twice-Settles : (o : Option ℕ) (s : Updates) → s.update_thread ≡ o → Invariant s → Settles s
unfolding Ended wake
twice-Settles none s e h = record {
  at_rest = h.is_applied;
  ends =
      subst (λ o. (wake_up (wake o s)).update_thread ≡ none) (sym e)
        (subst (λ o. (wake o s).update_thread ≡ none) (sym e) e);
  in_force = λ f. elim (f e) [ ];
}
twice-Settles (some n) s e h =
    let ended : Ended s.configured (wake_up (wake_up s)) =
      subst (λ o. Ended s.configured (wake_up (wake o s))) (sym e)
        (woken-Ended n s (subst (λ o. Counted o s.num_changes) e h.is_counted)) in
    record { at_rest = h.is_applied; ends = ended.0; in_force = λ f. ended.1 }

pub reachable-Settles : (version : ℕ) (s : Updates) → Reachable version s → Settles s
reachable-Settles version s r =
    twice-Settles s.update_thread s refl (reachable-Invariant version s r)
