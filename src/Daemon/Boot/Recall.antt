-- ===== src/Daemon/Boot/Recall.antt =====
-- The variables of the loop of waitForSSH, of internal/daemon/live.go, against the turns that there were.
use mathlib.Core.Path.{subst, ap}
use larri.Prelude.{
  ◌≢◌, ◌<◌, ℕ, ◌≡◌, refl, sym, ◌∙◌, Bool, true, false, not, ◌||◌, ◌⊎◌, inl, inr, Option, none, some,
  List, [], ◌∷◌, arith, Bool-cases, if◌then◌else◌,
}
use larri.Prelude.Text.{is_empty}
use larri.Daemon.Boot.{
  BootStatus, BootGet, failing, gone, found, BootPoll, BootLimits, Booting, boot_offline, or_now,
  offline_from, publishes, restarted, remember, boot_start,
}
use larri.Daemon.Boot.Heard.{
  clock_behind, latest, is_news, is_tested, before_hearing, Heard, Next, boot_poll-Next,
}
use larri.Daemon.Boot.Past.{
  published, Reached, begin, turn, heard_sig, heard_log, spoke, OfflineFrom, StillFrom, SilentFrom,
  LastPublished,
}

abbrev pub Clock : Option ℕ → List BootPoll → Type 0
Clock none past = published past ≡ false
Clock (some u) past = SilentFrom u past

abbrev pub Outage : Option ℕ → List BootPoll → Type 0
Outage none past = Unit {0}
Outage (some u) past = OfflineFrom u past

-- How the variables of the loop tell of the turns.
pub record Matches (t : ℕ) (s : Booting) (past : List BootPoll) : Type 0 where
  pub sig : s.last_sig ≡ heard_sig past
  pub log : s.last_log ≡ heard_log past
  pub spoken : s.ever_spoke ≡ spoke past
  pub changed : StillFrom s.changed_at t past
  pub outage : Outage s.offline_since past
  pub clock : Clock s.endpoint_at past
  pub known : not (is_empty s.last_host) ≡ published past
  pub address : (published past ≡ true) → LastPublished s.last_host s.last_port past

start-Matches : (t : ℕ) → Matches t (boot_start t) []
start-Matches t = record {
  sig = refl;
  log = refl;
  spoken = refl;
  changed = refl;
  outage = tt;
  clock = refl;
  known = refl;
  address = λ h. absurd cc;
}

SilentFrom-published : (u : ℕ) (past : List BootPoll) → SilentFrom u past → published past ≡ true
SilentFrom-published u [] h = absurd h
SilentFrom-published u (p ∷ past) h = h.0

failing-Clock :
    (since : Option ℕ) (p : BootPoll) (past : List BootPoll)
    → Clock since past
    → Clock since (record p { got = failing } ∷ past)
failing-Clock none p past h = h
failing-Clock (some u) p past h = (SilentFrom-published u past h, inr (refl, inr h))

failing-Matches :
    (t : ℕ) (s : Booting) (p : BootPoll) (past : List BootPoll)
    → Matches t s past
    → Matches t (record s { offline_since = none }) (record p { got = failing } ∷ past)
failing-Matches t s p past m = record {
  sig = m.sig;
  log = m.log;
  spoken = ground (arith, m.spoken);
  changed = inr (refl, m.changed);
  outage = tt;
  clock = failing-Clock s.endpoint_at p past m.clock;
  known = m.known;
  address = λ h. inr (refl, m.address h);
}

-- The state in which a turn hears what is new, field by field.
abbrev Before : Booting → BootPoll → BootStatus → Booting → Type 0
Before s p b x =
    ((x.last_sig ≡ s.last_sig)
      × ((x.last_log ≡ s.last_log)
          × ((x.ever_spoke ≡ s.ever_spoke) × (x.changed_at ≡ s.changed_at))))
    × ((x.offline_since ≡ offline_from s.offline_since (found b) p.now)
        × ((x.endpoint_at ≡ (if is_tested s b then or_now s.endpoint_at p.now else s.endpoint_at))
            × (((publishes b ≡ true) × ((x.last_host ≡ b.ssh_host) × (x.last_port ≡ b.ssh_port)))
                ⊎ ((publishes b ≡ false)
                    × ((x.last_host ≡ s.last_host) × (x.last_port ≡ s.last_port))))))

before_hearing-Before :
    (s : Booting) (p : BootPoll) (b : BootStatus) → Before s p b (before_hearing s p b)
unfolding remember
before_hearing-Before s p b = ground arith

publishes-host : (b : BootStatus) → publishes b ≡ true → not (is_empty b.ssh_host) ≡ true
unfolding publishes
publishes-host b h = ground (arith, h)

pub publishes_address : (b : BootStatus) → publishes b ≡ true → (b.ssh_host ≢ []) × (0 < b.ssh_port)
unfolding publishes
publishes_address b h = ground (arith, h)

found-Outage :
    (since : Option ℕ) (p : BootPoll) (b : BootStatus) (past : List BootPoll)
    → Outage since past
    → Outage (offline_from since (found b) p.now) (record p { got = found b } ∷ past)
unfolding offline_from
found-Outage since p b past h = elim (Bool-cases (boot_offline b)) [
  | inl e ↦ rw e (goes since h e)
  | inr e ↦ rw e tt
]
  where
    goes :
        (since : Option ℕ)
        → Outage since past
        → boot_offline b ≡ true
        → Outage (or_now since p.now) (record p { got = found b } ∷ past)
    goes none k e = (e, inl refl)
    goes (some u) k e = (e, inr k)

-- What follows is of the turn `p` on `b`, where `c` is whether it is a sign of life.
abbrev IsSign : Bool → BootPoll → BootStatus → List BootPoll → Type 0
IsSign c p b past = is_news p b (heard_log past) (heard_sig past) ≡ c

found-still :
    (c : Bool) (t u v : ℕ) (p : BootPoll) (b : BootStatus) (past : List BootPoll)
    → IsSign c p b past
    → StillFrom u t past
    → v ≡ (if c then p.after else u)
    → StillFrom v t (record p { got = found b } ∷ past)
found-still true t u v p b past h k e = inl (h, e)
found-still false t u v p b past h k e = inr (h, subst (λ w. StillFrom w t past) (sym e) k)

found-Clock :
    (c : Bool) (since : Option ℕ) (p : BootPoll) (b : BootStatus) (past : List BootPoll)
    → IsSign c p b past
    → Clock since past
    → Clock
        (clock_behind c
          (if publishes b || published past then or_now since p.now else since)
          p.after)
        (record p { got = found b } ∷ past)
unfolding restarted publishes
found-Clock c since p b past h k = elim (Bool-cases (publishes b || published past)) [
  | inl e ↦ rw e (runs c since h k e)
  | inr e ↦ rw e (stands c since h k e)
]
  where
    runs :
        (c : Bool) (since : Option ℕ)
        → IsSign c p b past
        → Clock since past
        → (publishes b || published past) ≡ true
        → Clock (clock_behind c (or_now since p.now) p.after) (record p { got = found b } ∷ past)
    runs true none h k e = (e, inl (h, refl))
    runs true (some u) h k e = (e, inl (h, refl))
    runs false none h k e = (e, inr (h, inl (k, refl)))
    runs false (some u) h k e = (e, inr (h, inr k))

    stands :
        (c : Bool) (since : Option ℕ)
        → IsSign c p b past
        → Clock since past
        → (publishes b || published past) ≡ false
        → Clock (clock_behind c since p.after) (record p { got = found b } ∷ past)
    stands true none h k e = e
    stands false none h k e = e
    stands c (some u) h k e = absurd (ground (arith, e, SilentFrom-published u past k))

found-address :
    (s s' : Booting) (p : BootPoll) (b : BootStatus) (past : List BootPoll)
    → not (is_empty s.last_host) ≡ published past
    → ((published past ≡ true) → LastPublished s.last_host s.last_port past)
    → ((publishes b ≡ true) × ((s'.last_host ≡ b.ssh_host) × (s'.last_port ≡ b.ssh_port)))
      ⊎ ((publishes b ≡ false) × ((s'.last_host ≡ s.last_host) × (s'.last_port ≡ s.last_port)))
    → (not (is_empty s'.last_host) ≡ (publishes b || published past))
      × (((publishes b || published past) ≡ true)
          → LastPublished s'.last_host s'.last_port (record p { got = found b } ∷ past))
unfolding publishes
found-address s s' p b past known last (inl (e, (h, n))) = (
  ap (λ x. not (is_empty x)) h ∙ publishes-host b e ∙ rw e refl,
  λ _. inl (publishes_address b e, (h, n)),
)
found-address s s' p b past known last (inr (e, (h, n))) = (
  ap (λ x. not (is_empty x)) h ∙ known ∙ rw e refl,
  λ k. inr (
    e,
    subst (λ x. LastPublished x s'.last_port past) (sym h)
        (subst (λ x. LastPublished s.last_host x past) (sym n) (last (ground (arith, e, k)))),
  ),
)

found-Matches :
    (t : ℕ) (s x s' : Booting) (p : BootPoll) (b : BootStatus) (past : List BootPoll)
    → Matches t s past
    → Before s p b x
    → Heard x p b s'
    → Matches t s' (record p { got = found b } ∷ past)
unfolding publishes
found-Matches t s x s' p b past m f h =
    let news = is_news p b (heard_log past) (heard_sig past) in
    let same_news : is_news p b x.last_log x.last_sig ≡ news =
      rw (f.0.0, f.0.1.0, m.sig, m.log) refl in
    let where_from = found-address s s' p b past m.known m.address (found_at f.1.1.1) in
    record {
      sig = h.0;
      log = h.1.0 ∙ ap (latest p.log) (f.0.1.0 ∙ m.log);
      spoken = h.1.1.0 ∙ ap (λ y. y || not (is_empty b.message)) (f.0.1.1.0 ∙ m.spoken);
      changed =
          found-still news t s.changed_at s'.changed_at p b past refl m.changed
            (rw (h.1.1.1.0, same_news, f.0.1.1.1) refl);
      outage =
          subst (λ y. Outage y (record p { got = found b } ∷ past)) (sym (h.1.1.1.1.1.0 ∙ f.1.0))
            (found-Outage s.offline_since p b past m.outage);
      clock =
          subst (λ y. Clock y (record p { got = found b } ∷ past))
            (rw (h.1.1.1.1.0, same_news, f.1.1.0, m.known) refl)
            (found-Clock news s.endpoint_at p b past refl m.clock);
      known = where_from.0;
      address = where_from.1;
    }
  where
    found_at :
        ((publishes b ≡ true) × ((x.last_host ≡ b.ssh_host) × (x.last_port ≡ b.ssh_port)))
          ⊎ ((publishes b ≡ false) × ((x.last_host ≡ s.last_host) × (x.last_port ≡ s.last_port)))
        → ((publishes b ≡ true) × ((s'.last_host ≡ b.ssh_host) × (s'.last_port ≡ b.ssh_port)))
          ⊎ ((publishes b ≡ false) × ((s'.last_host ≡ s.last_host) × (s'.last_port ≡ s.last_port)))
    found_at (inl (e, (a, c))) = inl (e, (h.1.1.1.1.1.1.0 ∙ a, h.1.1.1.1.1.1.1 ∙ c))
    found_at (inr (e, (a, c))) = inr (e, (h.1.1.1.1.1.1.0 ∙ a, h.1.1.1.1.1.1.1 ∙ c))

Next-Matches :
    (t : ℕ) (s s' : Booting) (p : BootPoll) (past : List BootPoll) (g : BootGet)
    → Matches t s past
    → Next s p g s'
    → Matches t s' (record p { got = g } ∷ past)
Next-Matches t s s' p past failing m k =
    subst (λ y. Matches t y (record p { got = failing } ∷ past)) (sym k)
      (failing-Matches t s p past m)
Next-Matches t s s' p past gone m k = absurd k
Next-Matches t s s' p past (found b) m k =
    found-Matches t s (before_hearing s p b) s' p b past m (before_hearing-Before s p b) k

pub Reached-Matches :
    (l : BootLimits) (t : ℕ) {s : Booting} {past : List BootPoll}
    → Reached l t s past
    → Matches t s past
Reached-Matches l t begin = start-Matches t
Reached-Matches l t (turn s s' p past r h) =
    Next-Matches t s s' p past p.got (Reached-Matches l t r) (boot_poll-Next l s s' p h)
