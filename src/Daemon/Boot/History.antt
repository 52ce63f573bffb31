-- ===== src/Daemon/Boot/History.antt =====
-- For which causes waitForSSH, of internal/daemon/live.go, ends: the causes are read off the turns that there
-- were, the last first, and not off the variables of the loop.
use mathlib.Core.Path.{subst, ap}
use larri.Prelude.{
  ℕ, ◌-◌, ◌*◌, ◌<◌, ◌≡◌, refl, sym, ◌∙◌, true, false, not, ◌||◌, ◌⊎◌, inl, inr, Option, none, some,
  List, ◌∷◌, arith, if◌then◌else◌,
}
use larri.Prelude.Text.{is_empty}
use larri.Daemon.Boot.{
  BootStatus, BootGet, failing, gone, found, BootPoll, BootLimits, Booting, BootEnd, usable,
  vanished, stayed_offline, abandoned, unreachable_host, no_progress, too_late, cancelled, crashed,
  stop, boot_pending, publishes, offline_grace, boot_offline, boot_abandoned, or_now, passed_since,
  boot_poll,
}
use larri.Daemon.Boot.Heard.{is_news}
use larri.Daemon.Boot.Causes.{FoundCause, Cause, boot_poll-Cause}
use larri.Daemon.Boot.Past.{
  published, Reached, heard_sig, spoke, is_sign, OfflineFrom, StillFrom, SilentFrom, LastPublished,
}
use larri.Daemon.Boot.Recall.{publishes_address, Matches, Clock, Outage, Reached-Matches}

-- The cause of each ending in the turn `p`, by the turns before it.
abbrev pub Ended : BootLimits → ℕ → BootPoll → List BootPoll → BootEnd → Type 0
Ended l t p past (usable h n) = (p.answers ≡ true) × LastPublished h n (p ∷ past)
Ended l t p past vanished = p.got ≡ gone
Ended l t p past stayed_offline = (u : ℕ) × (OfflineFrom u (p ∷ past) × (90000000000 < p.now - u))
Ended l t p past abandoned = (b : BootStatus) × ((p.got ≡ found b) × (boot_abandoned b ≡ true))
Ended l t p past unreachable_host =
    (p.answers ≡ false)
    × ((b : BootStatus) × ((p.got ≡ found b)
          × ((boot_pending b ≡ false)
              × ((u : ℕ) × ((((published past ≡ false) × (u ≡ p.now)) ⊎ SilentFrom u past)
                    × (l.unreachable < p.after - u))))))
Ended l t p past no_progress =
    (is_sign p past ≡ false)
    × ((spoke (p ∷ past) ≡ true)
        × ((b : BootStatus) × ((p.got ≡ found b)
              × ((u : ℕ) × (StillFrom u t past
                    × ((if boot_pending b then l.stall * 2 else l.stall) < p.after - u))))))
Ended l t p past too_late = ⊥
Ended l t p past cancelled = p.caller_ended ≡ true
Ended l t p past crashed = (p.got ≡ failing) × (spoke past ≡ true)

Outage-over :
    (since : Option ℕ) (p : BootPoll) (b : BootStatus) (past : List BootPoll)
    → Outage since past
    → boot_offline b ≡ true
    → passed_since since p.now offline_grace ≡ true
    → (u : ℕ) × (OfflineFrom u (record p { got = found b } ∷ past) × (90000000000 < p.now - u))
unfolding passed_since
Outage-over none p b past o e h = absurd cc
Outage-over (some u) p b past o e h = (u, ((e, inr o), ground (arith, h)))

silence_over :
    (since : Option ℕ) (p : BootPoll) (past : List BootPoll) (limit : ℕ)
    → Clock since past
    → passed_since (or_now since p.now) p.after limit ≡ true
    → (u : ℕ) × ((((published past ≡ false) × (u ≡ p.now)) ⊎ SilentFrom u past)
        × (limit < p.after - u))
unfolding passed_since
silence_over none p past limit k h = (p.now, (inl (k, refl), ground (arith, h)))
silence_over (some u) p past limit k h = (u, (inr k, ground (arith, h)))

found-Ended :
    (l : BootLimits) (t : ℕ) (s : Booting) (p : BootPoll) (past : List BootPoll) (b : BootStatus)
    (e : BootEnd)
    → Matches t s past
    → FoundCause l s p b e
    → Ended l t (record p { got = found b }) past e
unfolding publishes
found-Ended l t s p past b (usable h n) m (up, inl at) = (up, inl (publishes_address b at.0, at.1))
found-Ended l t s p past b (usable h n) m (up, inr (e, (has, (eh, en)))) = (
  up,
  inr (
    e,
    subst (λ x. LastPublished x n past) (sym eh)
        (subst (λ x. LastPublished s.last_host x past) (sym en)
          (m.address (sym m.known ∙ rw has refl))),
  ),
)
found-Ended l t s p past b vanished m h = absurd h
found-Ended l t s p past b stayed_offline m h =
    Outage-over s.offline_since p b past m.outage h.0 h.1
found-Ended l t s p past b abandoned m h = (b, (refl, h))
found-Ended l t s p past b unreachable_host m h =
    (h.0, (b, (refl, (h.1.0, silence_over s.endpoint_at p past l.unreachable m.clock h.1.1))))
found-Ended l t s p past b no_progress m h = (
  subst (λ x. is_news p b x (heard_sig past) ≡ false) m.log
      (subst (λ x. is_news p b s.last_log x ≡ false) m.sig h.0),
  (
    sym (ap (λ y. y || not (is_empty b.message)) m.spoken) ∙ h.1.0,
    (b, (refl, (s.changed_at, (m.changed, h.1.1)))),
  ),
)
found-Ended l t s p past b too_late m h = absurd h
found-Ended l t s p past b cancelled m h = h
found-Ended l t s p past b crashed m h = absurd h

-- Each ending of the wait for a host has its cause in the turns since the wait began at `t`, whatever they
-- were. Usable: the address that was published last, a host with a port above 0, answers. Vanished: the
-- provider has no instance. Stayed offline: in this turn and the ones before it without a gap the host was offline, since more than
-- 90 seconds. Abandoned: the provider's intent says so. Unreachable: the address does not answer, no image
-- is arriving, and more than the limit has passed since the first address was published and since the last
-- sign of life, which is an account or a line of the boot log that differs from the one heard last. No
-- progress: the provider has given a message in some turn, and since the last sign of life, or the beginning,
-- more than the limit has passed, which is doubled while an image is arriving. Cancelled: the caller has
-- ended. Crashed: the query failed, and in an earlier turn the provider had given a message.
pub boot_poll-Ended :
    (l : BootLimits) (t : ℕ) (s : Booting) (p : BootPoll) (past : List BootPoll) (e : BootEnd)
    → Reached l t s past
    → boot_poll l s p ≡ stop e
    → Ended l t p past e
boot_poll-Ended l t s p past e r h = ended p.got (Reached-Matches l t r) (boot_poll-Cause l s p e h)
  where
    ended :
        (g : BootGet) → Matches t s past → Cause l s p g e → Ended l t (record p { got = g }) past e
    ended failing m (inl (q, k)) =
        subst (Ended l t (record p { got = failing }) past) (sym q) (refl, sym m.spoken ∙ k)
    ended failing m (inr (q, k)) = subst (Ended l t (record p { got = failing }) past) (sym q) k
    ended gone m q = subst (Ended l t (record p { got = gone }) past) (sym q) refl
    ended (found b) m k = found-Ended l t s p past b e m k
