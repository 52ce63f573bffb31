-- ===== src/Examples/Ready.antt =====
-- internal/daemon/live.go: a runtime that serves, and one whose host goes away.
use larri.Prelude.{ℕ, ◌+◌, ◌≤◌, ◌≡◌, refl, Bool, true, false, none, some, [], ◌∷◌, All, take}
use larri.Daemon.Boot.{minutes}
use larri.Daemon.Ready.{
  ReadyPoll, ReadyLimits, Readying, completed, connection_lost, exited, stalled, ends, ready_start,
  ready_poll, wait_ready,
}
use larri.Daemon.Ready.Endings.{
  Cause, ready_poll-Cause, Reached, begin, turn, IsDead, ready_poll_lost,
}

abbrev limits : ReadyLimits
limits = record { cold = 0; warm = 0; cap = minutes 30 }

abbrev poll_at : ℕ → ℕ → Bool → ReadyPoll
poll_at t size counted = record {
  now = t;
  after = t;
  completes = false;
  size = size;
  has_tail = false;
  counted = counted;
  moving = false;
  alive = none;
  caller_ended = false;
}

serves :
    wait_ready limits 0 (poll_at 1 100 true ∷ record (poll_at 2 100 true) { completes = true } ∷ [])
    ≡ ends completed
unfolding wait_ready
serves = refl

-- The log stands still and the process is gone.
dies :
    wait_ready limits 0
      (poll_at 1 100 true ∷ record (poll_at 2 100 true) { alive = some false } ∷ [])
    ≡ ends exited
unfolding wait_ready
dies = refl

hangs :
    wait_ready limits 0 (poll_at 1 100 true ∷ poll_at (minutes 12 + 2) 100 true ∷ []) ≡ ends stalled
unfolding wait_ready
hangs = refl

abbrev logged : Readying
logged = record { log_bytes = 100; last_growth = 1; dead_session = 0; ever_logged = true }

ready_poll-Cause_example :
    Cause limits logged (record (poll_at 2 100 true) { alive = some false }) exited
unfolding ready_poll
ready_poll-Cause_example =
    ready_poll-Cause limits logged (record (poll_at 2 100 true) { alive = some false }) exited refl

abbrev dead : ℕ → ReadyPoll
dead t = poll_at t 0 false

abbrev long : ReadyLimits
long = record { cold = minutes 4; warm = minutes 12; cap = minutes 30 }

abbrev after_dead : ℕ → Readying
after_dead n = record (ready_start 0) { dead_session = n }

three_dead : Reached long 0 (after_dead 3) (dead 3 ∷ dead 2 ∷ dead 1 ∷ [])
unfolding ready_poll
three_dead =
    turn (after_dead 2) (after_dead 3) (dead 3) (dead 2 ∷ dead 1 ∷ [])
      (turn (after_dead 1) (after_dead 2) (dead 2) (dead 1 ∷ [])
        (turn (after_dead 0) (after_dead 1) (dead 1) [] begin refl) refl)
      refl

lost_4 : ready_poll long (after_dead 3) (dead 4) ≡ ends connection_lost
unfolding ready_poll
lost_4 = refl

ready_poll_lost_example : (3 ≤ 3) × All IsDead (take 4 (dead 4 ∷ dead 3 ∷ dead 2 ∷ dead 1 ∷ []))
ready_poll_lost_example =
    ready_poll_lost long 0 (after_dead 3) (dead 4) (dead 3 ∷ dead 2 ∷ dead 1 ∷ []) three_dead lost_4
