-- ===== src/Daemon/Boot/Endings.antt =====
-- When waitForSSH of internal/daemon/live.go crashes, and that it ends.
use larri.Prelude.{
  ◌==◌, if◌then◌else◌, ℕ, ◌+◌, ◌<◌, ◌≡◌, ◌↔◌, refl, true, inl, inr, List, [], ◌∷◌, ltb, All, arith,
  Bool-cases,
}
use larri.Daemon.Boot.{
  BootGet, failing, gone, found, BootPoll, BootLimits, Booting, crashed, BootStep, stop, on,
  boot_poll, wait_from, boot_limits, boot_start, wait_for_ssh,
}
use larri.Daemon.Boot.Causes.{Cause, boot_poll-Cause}

-- A turn crashes just if the query to the provider fails after the provider has given a message, in an
-- earlier turn.
pub boot_poll_crashes :
    (l : BootLimits) (s : Booting) (p : BootPoll)
    → (boot_poll l s p ≡ stop crashed) ↔ ((p.got ≡ failing) × (s.ever_spoke ≡ true))
unfolding boot_poll
boot_poll_crashes l s p =
    (λ h. causes p.got refl (boot_poll-Cause l s p crashed h), λ h. crash h.0 h.1)
  where
    causes :
        (g : BootGet)
        → p.got ≡ g
        → Cause l s p g crashed
        → (p.got ≡ failing) × (s.ever_spoke ≡ true)
    causes failing e (inl c) = (e, c.1)
    causes failing e (inr c) = absurd (cc c.0)
    causes gone e c = absurd (cc c)
    causes (found b) e c = absurd c

    crash : p.got ≡ failing → s.ever_spoke ≡ true → boot_poll l s p ≡ stop crashed
    crash e k = rw (e, boot_poll) (ground (arith, k))

wait_from_late :
    (l : BootLimits) (deadline : ℕ) (s s' : Booting) (ps : List BootPoll)
    → wait_from l deadline s ps ≡ on s'
    → All (λ p. p.now < deadline) ps
unfolding wait_from
wait_from_late l deadline s s' [] h = tt
wait_from_late l deadline s s' (p ∷ ps) h = elim (Bool-cases (ltb p.now deadline)) [
  | inr late ↦ absurd (cc (rw (late, wait_from) at h))
  | inl early ↦
      turned (λ s''. wait_from_late l deadline s'' s' ps) early (boot_poll l s p)
        (rw (early, wait_from) at h)
]
  where
    turned :
        ((s'' : Booting) → wait_from l deadline s'' ps ≡ on s' → All (λ q. q.now < deadline) ps)
        → ltb p.now deadline ≡ true
        → (t : BootStep)
        → (elim t [ stop e ↦ stop e | on s'' ↦ wait_from l deadline s'' ps ]) ≡ on s'
        → All (λ q. q.now < deadline) (p ∷ ps)
    turned rest early (stop e) k = absurd (cc k)
    turned rest early (on s'') k = (ground (arith, early), rest s'' k)

-- The wait goes on only while every turn has begun before the ceiling, of half an hour where none is
-- given: with the first turn that begins later it has ended.
pub wait_for_ssh_ends :
    (l : BootLimits) (t : ℕ) (s : Booting) (ps : List BootPoll)
    → wait_for_ssh l t ps ≡ on s
    → All (λ p. p.now < t + (if l.cap == 0 then 1800000000000 else l.cap)) ps
unfolding wait_for_ssh boot_limits
wait_for_ssh_ends l t s ps h =
    wait_from_late (boot_limits l) (t + (boot_limits l).cap) (boot_start t) s ps h
