-- ===== src/Patience.antt =====
-- waitroom.go: how long a visitor still has to wait; clock.go: the clock for tests. The page that tells
-- the visitor is left out.
use onionguard.Base.{
  ℕ, ◌*◌, ◌≤◌, ◌<◌, ◌==◌, int64_bound, ◌≡◌, Bool, true, false, not, pos, negsuc, is_pos, ltb_ℤ,
  leb_ℤ, ◌-ℤ◌, arith, if◌then◌else◌,
}
use onionguard.Base.Time.{Time, Duration, is_zero, sub, add, second}

unfoldable pub wait_remaining : Time → Time → Duration → Duration
wait_remaining first_seen now wait =
    if not (is_pos wait)
    then pos 0
    else (let elapsed = sub now first_seen in
        if ltb_ℤ elapsed (pos 0)
        then wait
        else if leb_ℤ wait elapsed
        then pos 0
        else wait -ℤ elapsed)

abbrev pub is_nothing : Duration → Bool
is_nothing (pos n) = n == 0
is_nothing (negsuc n) = false

unfoldable pub wait_satisfied : Time → Time → Duration → Bool
unfolding wait_remaining
wait_satisfied first_seen now wait = is_nothing (wait_remaining first_seen now wait)

-- `TestClock`, which is the time that it shows, and its default: 1 January 2026.
abbrev pub TestClock : Type 0
TestClock = Time

abbrev pub epoch : Time
epoch = 63902822400 * second

unfoldable pub new_test_clock : Time → TestClock
new_test_clock start = if is_zero start then epoch else start

unfoldable pub advance : Duration → TestClock → TestClock
advance d c = add c d

-- `Sleep` does not wait: it advances the clock.
abbrev pub sleep : Duration → TestClock → TestClock
sleep d c = advance d c

-- A visitor who was first seen no later than now and sleeps, by the clock for tests, as long as
-- WaitRemaining says, has waited long enough for WaitSatisfied; the wait is not negative and fits
-- an int64.
pub wait_remaining-satisfied :
    (first_seen : Time) (clock : TestClock) (wait : ℕ)
    → first_seen ≤ clock
    → wait < int64_bound
    → wait_satisfied first_seen
        (sleep (wait_remaining first_seen clock (pos wait)) clock)
        (pos wait)
      ≡ true
unfolding wait_satisfied wait_remaining advance
wait_remaining-satisfied first_seen clock wait h k = ground arith

-- WaitSatisfied is the test of the admission engine: the time since the first visit, zero where the
-- clock was turned back, against a positive wait.
pub wait_satisfied-elapsed :
    (first_seen now : Time) (wait : Duration)
    → is_pos wait ≡ true
    → let elapsed = if ltb_ℤ (sub now first_seen) (pos 0) then pos 0 else sub now first_seen in
      wait_satisfied first_seen now wait ≡ not (ltb_ℤ elapsed wait)
unfolding wait_satisfied wait_remaining
wait_satisfied-elapsed first_seen now wait h = ground arith
