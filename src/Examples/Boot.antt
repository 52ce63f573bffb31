-- ===== src/Examples/Boot.antt =====
-- internal/daemon/live.go: hosts that boot, and hosts that do not.
use larri.Prelude.{ℕ, ◌+◌, ◌<◌, ◌≡◌, ◌↔◌, refl, Bool, true, false, none, some, [], ◌∷◌, All}
use larri.Prelude.Text.{Text, bytes, text_eq, to_lower, trim_space}
use larri.Daemon.Boot.{
  BootStatus, BootGet, failing, found, BootPoll, BootLimits, Booting, usable, crashed, no_progress,
  stop, on, minutes, boot_start, boot_limits, boot_signature, boot_poll, wait_for_ssh,
}
use larri.Daemon.Boot.Past.{begin, turn}
use larri.Daemon.Boot.History.{Ended, boot_poll-Ended}
use larri.Daemon.Boot.Endings.{boot_poll_crashes, wait_for_ssh_ends}

abbrev no_limits : BootLimits
no_limits = record { stall = 0; cap = 0; unreachable = 0 }

abbrev loading : Text → BootStatus
loading message = record {
  status = bytes "loading";
  intent = bytes "running";
  message = message;
  disk_used = bytes "0.00";
  ssh_host = [];
  ssh_port = 0;
}

abbrev at_ip : BootStatus → BootStatus
at_ip b = record b { ssh_host = bytes "1.2.3.4"; ssh_port = 22 }

abbrev seen : ℕ → BootGet → Bool → BootPoll
seen t g answers = record {
  now = t;
  after = t;
  got = g;
  answers = answers;
  log = none;
  caller_ended = false;
}

-- The address is not reported in the second turn, and is remembered.
remembered :
    wait_for_ssh no_limits 0 (
      seen 0 (found (at_ip (loading (bytes "pulling")))) false
      ∷ seen (minutes 1) (found (loading (bytes "pulling"))) true
      ∷ [])
    ≡ stop (usable (bytes "1.2.3.4") 22)
unfolding wait_for_ssh text_eq to_lower trim_space
remembered = refl

-- The query fails after the provider has given a message.
panics :
    wait_for_ssh no_limits 0
      (seen 0 (found (loading (bytes "pulling"))) false ∷ seen (minutes 1) failing false ∷ [])
    ≡ stop crashed
unfolding wait_for_ssh text_eq to_lower trim_space
panics = refl

stalls :
    wait_for_ssh no_limits 0 (
      seen 0 (found (loading (bytes "x"))) false
      ∷ seen (minutes 16 + 1) (found (loading (bytes "x"))) false
      ∷ [])
    ≡ stop no_progress
unfolding wait_for_ssh text_eq to_lower trim_space
stalls = refl

abbrev spoken : Booting
spoken = record (boot_start 0) { ever_spoke = true }

abbrev first_turn : BootPoll
first_turn = seen 0 (found (at_ip (loading (bytes "pulling")))) false

abbrev stalled : BootPoll
stalled = seen (minutes 16 + 1) (found (loading (bytes "pulling"))) false

-- The state behind the first turn.
abbrev told : Booting
told = record (boot_start 0) {
  last_host = bytes "1.2.3.4";
  last_port = 22;
  last_sig = boot_signature (loading (bytes "pulling"));
  endpoint_at = some 0;
  ever_spoke = true;
}

one_turn : boot_poll (boot_limits no_limits) (boot_start 0) first_turn ≡ on told
unfolding boot_poll boot_limits text_eq to_lower trim_space
one_turn = refl

then_stalled : boot_poll (boot_limits no_limits) told stalled ≡ stop no_progress
unfolding boot_poll boot_limits text_eq to_lower trim_space
then_stalled = refl

boot_poll-Ended_example : Ended (boot_limits no_limits) 0 stalled (first_turn ∷ []) no_progress
boot_poll-Ended_example =
    boot_poll-Ended (boot_limits no_limits) 0 told stalled (first_turn ∷ []) no_progress
      (turn (boot_start 0) told first_turn [] begin one_turn) then_stalled

boot_poll_crashes_example :
    (boot_poll no_limits spoken (seen 5 failing false) ≡ stop crashed)
    ↔ ((failing ≡ failing) × (true ≡ true))
boot_poll_crashes_example = boot_poll_crashes no_limits spoken (seen 5 failing false)

abbrev waiting : Booting
waiting = boot_start 0

two_fail :
    wait_for_ssh no_limits 0 (seen 5 failing false ∷ seen (minutes 29) failing false ∷ [])
    ≡ on waiting
unfolding wait_for_ssh
two_fail = refl

wait_for_ssh_ends_example :
    All
      (λ p. p.now < 0 + 1800000000000)
      (seen 5 failing false ∷ seen (minutes 29) failing false ∷ [])
wait_for_ssh_ends_example =
    wait_for_ssh_ends no_limits 0 waiting
      (seen 5 failing false ∷ seen (minutes 29) failing false ∷ []) two_fail
