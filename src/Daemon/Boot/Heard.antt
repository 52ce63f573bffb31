-- ===== src/Daemon/Boot/Heard.antt =====
-- What a turn of waitForSSH, of internal/daemon/live.go, leaves in the variables of its loop.
use mathlib.Core.Path.{subst}
use larri.Prelude.{
  ℕ, ◌≡◌, refl, sym, Bool, true, false, not, ◌&&◌, ◌||◌, Option, none, some, arith, if◌then◌else◌,
}
use larri.Prelude.Text.{Text, text_eq, text_eq→eq, is_empty}
use larri.Daemon.Boot.{
  BootStatus, BootGet, failing, gone, found, BootPoll, BootLimits, Booting, BootEnd, stop, BootStep,
  on, boot_signature, offline_from, publishes, restarted, hear_log, hear_status, hear, wait_on,
  test_endpoint, passed_since, boot_pending, boot_offline, boot_abandoned, offline_grace, usable,
  unreachable_host, stayed_offline, abandoned, remember, boot_found, boot_turn, boot_poll,
}

abbrev pub latest : Option Text → Text → Text
latest none last = last
latest (some line) last = line

abbrev pub is_new_line : Option Text → Text → Bool
is_new_line none last = false
is_new_line (some line) last = not (text_eq line last)

-- Whether the turn brings something new, where `log` and `sig` are what was heard last.
abbrev pub is_news : BootPoll → BootStatus → Text → Text → Bool
is_news p b log sig = is_new_line p.log log || not (text_eq (boot_signature b) sig)

abbrev pub clock_behind : Bool → Option ℕ → ℕ → Option ℕ
clock_behind stirred since t = if stirred then restarted since t else since

-- The state behind `hear`, field by field.
abbrev pub Heard : Booting → BootPoll → BootStatus → Booting → Type 0
Heard s p b s' =
    (s'.last_sig ≡ boot_signature b)
    × ((s'.last_log ≡ latest p.log s.last_log)
        × ((s'.ever_spoke ≡ (s.ever_spoke || not (is_empty b.message)))
            × ((s'.changed_at
                  ≡ (if is_news p b s.last_log s.last_sig then p.after else s.changed_at))
                × ((s'.endpoint_at
                      ≡ clock_behind (is_news p b s.last_log s.last_sig) s.endpoint_at p.after)
                    × ((s'.offline_since ≡ s.offline_since)
                        × ((s'.last_host ≡ s.last_host) × (s'.last_port ≡ s.last_port)))))))

restarted_again : (since : Option ℕ) (t : ℕ) → restarted (restarted since t) t ≡ restarted since t
unfolding restarted
restarted_again none t = refl
restarted_again (some u) t = refl

latest-old :
    (log : Option Text) (last : Text) → is_new_line log last ≡ false → latest log last ≡ last
latest-old none last h = refl
latest-old (some line) last h = text_eq→eq line last (ground (arith, h))

pub hear-Heard : (s : Booting) (p : BootPoll) (b : BootStatus) → Heard s p b (hear s p b)
unfolding hear hear_status hear_log
hear-Heard s p b = ground (
  arith,
  restarted_again s.endpoint_at p.after,
  latest-old p.log s.last_log,
  text_eq→eq (boot_signature b) s.last_sig,
)

wait_on-on :
    (l : BootLimits) (s s' : Booting) (p : BootPoll) (b : BootStatus)
    → wait_on l s p b ≡ on s'
    → s' ≡ s
unfolding wait_on
wait_on-on l s s' p b h = ground arith

-- Two ways to stop, and what is done otherwise.
two_stops_on :
    (a c : Bool) (x y : BootEnd) (z : BootStep) (s' : Booting)
    → (if a then stop x else if c then stop y else z) ≡ on s'
    → z ≡ on s'
two_stops_on a c x y z s' h = ground arith

test_endpoint-on :
    (l : BootLimits) (s s' : Booting) (p : BootPoll) (b : BootStatus)
    → test_endpoint l s p b ≡ on s'
    → s' ≡ hear s p b
unfolding test_endpoint
test_endpoint-on l s s' p b h = wait_on-on l (hear s p b) s' p b (
    two_stops_on p.answers
      (passed_since s.endpoint_at p.after l.unreachable && not (boot_pending b))
      (usable s.last_host s.last_port) unreachable_host (wait_on l (hear s p b) p b) s' h)

either-on :
    (l : BootLimits) (c : Bool) (s1 s2 s' : Booting) (p : BootPoll) (b : BootStatus)
    → (if c then test_endpoint l s1 p b else wait_on l (hear s2 p b) p b) ≡ on s'
    → s' ≡ hear (if c then s1 else s2) p b
either-on l true s1 s2 s' p b h = test_endpoint-on l s1 s' p b h
either-on l false s1 s2 s' p b h = wait_on-on l (hear s2 p b) s' p b h

-- Whether an address is tested in the turn.
abbrev pub is_tested : Booting → BootStatus → Bool
is_tested s b = publishes b || not (is_empty s.last_host)

-- The state in which a turn hears what is new.
abbrev pub before_hearing : Booting → BootPoll → BootStatus → Booting
before_hearing s p b =
    let s' = record s { offline_since = offline_from s.offline_since (found b) p.now } in
    if is_tested s b then remember s' p.now b else s'

-- The state behind a turn that goes on.
abbrev pub Next : Booting → BootPoll → BootGet → Booting → Type 0
Next s p failing s' = s' ≡ record s { offline_since = none }
Next s p gone s' = ⊥
Next s p (found b) s' = Heard (before_hearing s p b) p b s'

found_on :
    (l : BootLimits) (s s' : Booting) (p : BootPoll) (b : BootStatus)
    → boot_found l (record s { offline_since = offline_from s.offline_since (found b) p.now }) p b
      ≡ on s'
    → s' ≡ hear (before_hearing s p b) p b
unfolding boot_found
found_on l s s' p b h =
    let s1 = record s { offline_since = offline_from s.offline_since (found b) p.now } in
    either-on l (is_tested s b) (remember s1 p.now b) s1 s' p b (
      two_stops_on (boot_offline b && passed_since s1.offline_since p.now offline_grace)
        (boot_abandoned b) stayed_offline abandoned
        (if is_tested s b
          then test_endpoint l (remember s1 p.now b) p b
          else wait_on l (hear s1 p b) p b)
        s' h)

pub boot_poll-Next :
    (l : BootLimits) (s s' : Booting) (p : BootPoll) → boot_poll l s p ≡ on s' → Next s p p.got s'
unfolding boot_poll
boot_poll-Next l s s' p h = turn p.got h
  where
    turn :
        (g : BootGet)
        → boot_turn l (record s { offline_since = offline_from s.offline_since g p.now }) p g
          ≡ on s'
        → Next s p g s'
    turn failing k = ground (arith, k)
    turn gone k = ground (arith, k)
    turn (found b) k =
        subst (Heard (before_hearing s p b) p b) (sym (found_on l s s' p b k))
          (hear-Heard (before_hearing s p b) p b)
