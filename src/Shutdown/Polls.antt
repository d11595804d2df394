-- ===== src/Shutdown/Polls.antt =====
-- The two loops that poll: they end, and find what a test finds before the deadline.
use sonic_host_services.Base.{
  ℕ, zero, suc, ◌+◌, ◌*◌, ◌≤◌, ◌<◌, Bool, true, false, Option, none, some, ◌≡◌, ◌≢◌, refl, arith,
}
use sonic_host_services.Shutdown.{Tests, poll}

-- A sleep of at least a second between two tests.
abbrev pub Sleeps : Tests → Type 0
Sleeps tests = (i : ℕ) → tests.elapsed i + 1000 ≤ tests.elapsed (suc i)

poll-some :
    (tests : Tests) (timeout fuel i : ℕ)
    → Sleeps tests
    → timeout * 1000 ≤ tests.elapsed i + 1000 * fuel
    → poll tests timeout (suc fuel) i ≢ none
unfolding poll
poll-some tests timeout zero i sleeps enough = ground arith
poll-some tests timeout (suc fuel) i sleeps enough =
    ground (arith, poll-some tests timeout fuel (suc i) sleeps, sleeps i)

is_answer : (o : Option Bool) → o ≢ none → (b : Bool) × (o ≡ some b)
is_answer none ne = elim (ne refl) [ ]
is_answer (some b) ne = (b, refl)

-- Enough fuel for a test every second until the deadline gives a result.
pub poll-ends :
    (tests : Tests) (timeout fuel i : ℕ)
    → Sleeps tests
    → timeout * 1000 ≤ tests.elapsed i + 1000 * fuel
    → (b : Bool) × (poll tests timeout (suc fuel) i ≡ some b)
poll-ends tests timeout fuel i sleeps enough =
    is_answer (poll tests timeout (suc fuel) i) (poll-some tests timeout fuel i sleeps enough)

found_at :
    (tests : Tests) (timeout fuel i : ℕ) (b : Bool)
    → tests.found i ≡ b
    → poll tests timeout (suc fuel) i ≡ some true
    → (poll tests timeout fuel (suc i) ≡ some true
        → (j : ℕ) × (tests.elapsed j < timeout * 1000) × (tests.found j ≡ true))
    → (j : ℕ) × (tests.elapsed j < timeout * 1000) × (tests.found j ≡ true)
unfolding poll
found_at tests timeout fuel i true at done later = (i, ground arith, at)
found_at tests timeout fuel i false at done later = later (ground arith)

-- A loop that reports a find made it before the deadline.
pub poll-found :
    (tests : Tests) (timeout fuel i : ℕ)
    → poll tests timeout fuel i ≡ some true
    → (j : ℕ) × (tests.elapsed j < timeout * 1000) × (tests.found j ≡ true)
unfolding poll
poll-found tests timeout zero i done = cc
poll-found tests timeout (suc fuel) i done =
    found_at tests timeout fuel i (tests.found i) refl done (poll-found tests timeout fuel (suc i))
