-- ===== src/Daemon/Boot/Causes.antt =====
-- For which causes a turn of waitForSSH, of internal/daemon/live.go, ends the wait.
use mathlib.Core.Path.{subst}
use larri.Prelude.{
  ℕ, ◌-◌, ◌*◌, ◌<◌, ◌≡◌, refl, sym, ◌∙◌, Bool, true, false, not, ◌&&◌, ◌||◌, ◌⊎◌, inl, inr, Option,
  none, some, arith, Bool-cases, if◌then◌else◌,
}
use larri.Prelude.Text.{Text, is_empty}
use larri.Daemon.Boot.{
  BootStatus, BootGet, failing, gone, found, BootPoll, BootLimits, Booting, BootEnd, usable,
  vanished, stayed_offline, abandoned, unreachable_host, no_progress, too_late, cancelled, crashed,
  BootStep, stop, boot_pending, offline_grace, boot_offline, boot_abandoned, or_now, offline_from,
  passed_since, publishes, hear, wait_on, test_endpoint, remember, boot_found, boot_turn, boot_poll,
}
use larri.Daemon.Boot.Heard.{is_news, hear-Heard}

-- The limit on silence.
abbrev pub stall_limit : BootLimits → BootStatus → ℕ
stall_limit l b = if boot_pending b then l.stall * 2 else l.stall

-- The cause of each ending, of a turn that began in `s` and saw the instance.
abbrev pub FoundCause : BootLimits → Booting → BootPoll → BootStatus → BootEnd → Type 0
FoundCause l s p b (usable h n) =
    (p.answers ≡ true)
    × (((publishes b ≡ true) × ((h ≡ b.ssh_host) × (n ≡ b.ssh_port)))
        ⊎ ((publishes b ≡ false)
            × ((is_empty s.last_host ≡ false) × ((h ≡ s.last_host) × (n ≡ s.last_port)))))
FoundCause l s p b vanished = ⊥
FoundCause l s p b stayed_offline =
    (boot_offline b ≡ true) × (passed_since s.offline_since p.now offline_grace ≡ true)
FoundCause l s p b abandoned = boot_abandoned b ≡ true
FoundCause l s p b unreachable_host =
    (p.answers ≡ false)
    × ((boot_pending b ≡ false)
        × (passed_since (or_now s.endpoint_at p.now) p.after l.unreachable ≡ true))
FoundCause l s p b no_progress =
    (is_news p b s.last_log s.last_sig ≡ false)
    × ((s.ever_spoke || not (is_empty b.message) ≡ true)
        × (stall_limit l b < p.after - s.changed_at))
FoundCause l s p b too_late = ⊥
FoundCause l s p b cancelled = p.caller_ended ≡ true
FoundCause l s p b crashed = ⊥

abbrev pub Cause : BootLimits → Booting → BootPoll → BootGet → BootEnd → Type 0
Cause l s p failing e =
    ((e ≡ crashed) × (s.ever_spoke ≡ true)) ⊎ ((e ≡ cancelled) × (p.caller_ended ≡ true))
Cause l s p gone e = e ≡ vanished
Cause l s p (found b) e = FoundCause l s p b e

-- How the turn's own variables stand after `hear`, for the stall limit.
hear_kept :
    (s : Booting) (p : BootPoll) (b : BootStatus)
    → ((hear s p b).ever_spoke ≡ (s.ever_spoke || not (is_empty b.message)))
      × (((hear s p b).changed_at ≡ p.after)
          ⊎ ((is_news p b s.last_log s.last_sig ≡ false)
              × ((hear s p b).changed_at ≡ s.changed_at)))
hear_kept s p b =
    let k = hear-Heard s p b in (k.1.1.0, either (is_news p b s.last_log s.last_sig) k.1.1.1.0)
  where
    either :
        (c : Bool)
        → (hear s p b).changed_at ≡ (if c then p.after else s.changed_at)
        → ((hear s p b).changed_at ≡ p.after)
          ⊎ ((c ≡ false) × ((hear s p b).changed_at ≡ s.changed_at))
    either true h = inl h
    either false h = inr (refl, h)

wait_on_ends :
    (l : BootLimits) (s : Booting) (p : BootPoll) (b : BootStatus) (e : BootEnd)
    → wait_on l s p b ≡ stop e
    → ((e ≡ no_progress) × ((s.ever_spoke ≡ true) × (stall_limit l b < p.after - s.changed_at)))
      ⊎ ((e ≡ cancelled) × (p.caller_ended ≡ true))
unfolding wait_on
wait_on_ends l s p b e h = ground arith

-- The same of the state before what was heard in this turn.
WaitCause : BootLimits → Booting → BootPoll → BootStatus → BootEnd → Type 0
WaitCause l s p b e =
    ((e ≡ no_progress) × FoundCause l s p b no_progress)
    ⊎ ((e ≡ cancelled) × (p.caller_ended ≡ true))

wait_on-WaitCause :
    (l : BootLimits) (s : Booting) (p : BootPoll) (b : BootStatus) (e : BootEnd)
    → wait_on l (hear s p b) p b ≡ stop e
    → WaitCause l s p b e
unfolding WaitCause
wait_on-WaitCause l s p b e h =
    let k = hear_kept s p b in
    elim (wait_on_ends l (hear s p b) p b e h) [
      | inr c ↦ inr c
      | inl (q, (spoke, late)) ↦ inl (q, silent spoke late k.0 k.1)
    ]
  where
    silent :
        (hear s p b).ever_spoke ≡ true
        → stall_limit l b < p.after - (hear s p b).changed_at
        → (hear s p b).ever_spoke ≡ (s.ever_spoke || not (is_empty b.message))
        → ((hear s p b).changed_at ≡ p.after)
          ⊎ ((is_news p b s.last_log s.last_sig ≡ false) × ((hear s p b).changed_at ≡ s.changed_at))
        → FoundCause l s p b no_progress
    silent spoke late heard (inl now) = absurd (omega (arith, late, now))
    silent spoke late heard (inr (same, kept)) =
        (same, (sym heard ∙ spoke, omega (arith, late, kept)))

WaitCause-FoundCause :
    (l : BootLimits) (s : Booting) (p : BootPoll) (b : BootStatus) (e : BootEnd)
    → WaitCause l s p b e
    → FoundCause l s p b e
unfolding WaitCause
WaitCause-FoundCause l s p b e (inl (q, c)) = subst (FoundCause l s p b) (sym q) c
WaitCause-FoundCause l s p b e (inr (q, c)) = subst (FoundCause l s p b) (sym q) c

-- Two ways to stop, and what is done otherwise.
two_stops :
    (a c : Bool) (x y : BootEnd) (z : BootStep) (e : BootEnd)
    → (if a then stop x else if c then stop y else z) ≡ stop e
    → ((a ≡ true) × (e ≡ x))
      ⊎ (((a ≡ false) × ((c ≡ true) × (e ≡ y))) ⊎ ((a ≡ false) × (z ≡ stop e)))
two_stops a c x y z e h = ground arith

-- The address that is tested, and where it is from.
abbrev pub Address : Booting → BootStatus → Text → ℕ → Type 0
Address s b h n =
    ((publishes b ≡ true) × ((h ≡ b.ssh_host) × (n ≡ b.ssh_port)))
    ⊎ ((publishes b ≡ false)
        × ((is_empty s.last_host ≡ false) × ((h ≡ s.last_host) × (n ≡ s.last_port))))

abbrev at_address : Booting → ℕ → Text → ℕ → Booting
at_address s t h n = record s { endpoint_at = or_now s.endpoint_at t; last_host = h; last_port = n }

remember_lem :
    (s : Booting) (t : ℕ) (b : BootStatus)
    → (publishes b || not (is_empty s.last_host)) ≡ true
    → (h : Text) × (n : ℕ) × ((remember s t b ≡ at_address s t h n) × Address s b h n)
unfolding remember
remember_lem s t b h = elim (Bool-cases (publishes b)) [
  | inl e ↦ (b.ssh_host, b.ssh_port, (rw (e, remember) refl, inl (e, (refl, refl))))
  | inr e ↦ (
    s.last_host,
    s.last_port,
    (rw (e, remember) refl, inr (e, (ground (arith, e, h), (refl, refl)))),
  )
]

split_and : (a c : Bool) → (a && c) ≡ true → (a ≡ true) × (c ≡ true)
split_and a c h = ground arith

refuted : (a : Bool) → not a ≡ true → a ≡ false
refuted a h = ground arith

-- In what follows the state is one in which the first switch has set the outage to `out`.
abbrev with_outage : Booting → Option ℕ → Booting
with_outage s out = record s { offline_since = out }

waits-FoundCause :
    (l : BootLimits) (s : Booting) (p : BootPoll) (b : BootStatus) (e : BootEnd) (out t : Option ℕ)
    (h : Text) (n : ℕ)
    → wait_on l
        (hear (record s { offline_since = out; endpoint_at = t; last_host = h; last_port = n }) p b)
        p
        b
      ≡ stop e
    → FoundCause l s p b e
unfolding WaitCause
waits-FoundCause l s p b e out t h n k = WaitCause-FoundCause l s p b e (
    wait_on-WaitCause l
      (record s { offline_since = out; endpoint_at = t; last_host = h; last_port = n }) p b e k)

tested-FoundCause :
    (l : BootLimits) (s : Booting) (p : BootPoll) (b : BootStatus) (e : BootEnd) (out : Option ℕ)
    (h : Text) (n : ℕ)
    → Address s b h n
    → test_endpoint l (at_address (with_outage s out) p.now h n) p b ≡ stop e
    → FoundCause l s p b e
unfolding test_endpoint
tested-FoundCause l s p b e out h n from k =
    let s' = at_address (with_outage s out) p.now h n in
    elim (two_stops p.answers
      (passed_since s'.endpoint_at p.after l.unreachable && not (boot_pending b)) (usable h n)
      unreachable_host (wait_on l (hear s' p b) p b) e k) [
        | inl (up, q) ↦ subst (FoundCause l s p b) (sym q) (up, from)
        | inr (inl (down, (late, q))) ↦
            let both = split_and _ _ late in
            subst (FoundCause l s p b) (sym q) (down, (refuted _ both.1, both.0))
        | inr (inr (down, rest)) ↦
            waits-FoundCause l s p b e out (or_now s.endpoint_at p.now) h n rest
      ]

endpoint-FoundCause :
    (l : BootLimits) (s : Booting) (p : BootPoll) (b : BootStatus) (e : BootEnd) (out : Option ℕ)
    → (publishes b || not (is_empty s.last_host)) ≡ true
    → test_endpoint l (remember (with_outage s out) p.now b) p b ≡ stop e
    → FoundCause l s p b e
endpoint-FoundCause l s p b e out has k =
    let (h, n, (same, from)) = remember_lem (with_outage s out) p.now b has in
    tested-FoundCause l s p b e out h n from (subst (λ s'. test_endpoint l s' p b ≡ stop e) same k)

reached-FoundCause :
    (l : BootLimits) (s : Booting) (p : BootPoll) (b : BootStatus) (e : BootEnd) (out : Option ℕ)
    → (if publishes b || not (is_empty s.last_host)
        then test_endpoint l (remember (with_outage s out) p.now b) p b
        else wait_on l (hear (with_outage s out) p b) p b)
      ≡ stop e
    → FoundCause l s p b e
reached-FoundCause l s p b e out = elim (Bool-cases (publishes b || not (is_empty s.last_host))) [
  | inl has ↦ rw has (λ k. endpoint-FoundCause l s p b e out has k)
  | inr has ↦ rw has (λ k. waits-FoundCause l s p b e out s.endpoint_at s.last_host s.last_port k)
]

-- In the states that a turn begins and that its first switch makes: an outage that has just begun is
-- not over the grace, since no time has passed in it.
outage-passed :
    (since : Option ℕ) (b : BootStatus) (t : ℕ)
    → boot_offline b ≡ true
    → passed_since (offline_from since (found b) t) t offline_grace ≡ true
    → passed_since since t offline_grace ≡ true
unfolding offline_from passed_since
outage-passed none b t off h = ground (arith, off)
outage-passed (some u) b t off h = ground (arith, off)

found-FoundCause :
    (l : BootLimits) (s : Booting) (p : BootPoll) (b : BootStatus) (e : BootEnd)
    → boot_found l (with_outage s (offline_from s.offline_since (found b) p.now)) p b ≡ stop e
    → FoundCause l s p b e
unfolding boot_found
found-FoundCause l s p b e h =
    let out = offline_from s.offline_since (found b) p.now in
    let s' = with_outage s out in
    elim (two_stops (boot_offline b && passed_since out p.now offline_grace) (boot_abandoned b)
      stayed_offline abandoned
      (if publishes b || not (is_empty s.last_host)
        then test_endpoint l (remember s' p.now b) p b
        else wait_on l (hear s' p b) p b)
      e h) [
        | inl (gone_off, q) ↦
            let both = split_and _ _ gone_off in
            subst (FoundCause l s p b) (sym q)
              (both.0, outage-passed s.offline_since b p.now both.0 both.1)
        | inr (inl (here, (up, q))) ↦ subst (FoundCause l s p b) (sym q) up
        | inr (inr (here, rest)) ↦ reached-FoundCause l s p b e out rest
      ]

-- The cause of an ending by the state that the turn began in.
pub boot_poll-Cause :
    (l : BootLimits) (s : Booting) (p : BootPoll) (e : BootEnd)
    → boot_poll l s p ≡ stop e
    → Cause l s p p.got e
unfolding boot_poll
boot_poll-Cause l s p e h = turn p.got h
  where
    turn :
        (g : BootGet)
        → boot_turn l (with_outage s (offline_from s.offline_since g p.now)) p g ≡ stop e
        → Cause l s p g e
    turn failing k = ground (arith, k)
    turn gone k = ground (arith, k)
    turn (found b) k = found-FoundCause l s p b e k
