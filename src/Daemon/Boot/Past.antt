-- ===== src/Daemon/Boot/Past.antt =====
-- The turns of waitForSSH, of internal/daemon/live.go, that there were, the last first, and what they told.
use larri.Prelude.{
  ◌≢◌, ◌<◌, ltb, ◌&&◌, ℕ, ◌≡◌, Bool, true, false, not, ◌||◌, ◌⊎◌, Option, List, [], ◌∷◌,
}
use larri.Prelude.Text.{Text, is_empty}
use larri.Daemon.Boot.{
  BootGet, failing, gone, found, BootPoll, BootLimits, Booting, on, boot_offline, boot_signature,
  boot_start, boot_poll,
}
use larri.Daemon.Boot.Heard.{latest, is_news}

-- The states that the loop comes to, each with the turns before it.
pub data Reached (l : BootLimits) (t : ℕ) : Booting → List BootPoll → Type 0 where
  begin : Reached l t (boot_start t) []
  turn :
      (s s' : Booting) (p : BootPoll) (past : List BootPoll)
      → Reached l t s past
      → boot_poll l s p ≡ on s'
      → Reached l t s' (p ∷ past)

-- What one query tells, or what was known before it.
abbrev pub sig_in : BootGet → Text → Text
sig_in failing last = last
sig_in gone last = last
sig_in (found b) last = boot_signature b

abbrev pub log_in : BootGet → Option Text → Text → Text
log_in failing line last = last
log_in gone line last = last
log_in (found b) line last = latest line last

abbrev pub spoke_in : BootGet → Bool
spoke_in failing = false
spoke_in gone = false
spoke_in (found b) = not (is_empty b.message)

abbrev pub publishes_in : BootGet → Bool
publishes_in failing = false
publishes_in gone = false
publishes_in (found b) = not (is_empty b.ssh_host) && ltb 0 b.ssh_port

abbrev pub news_in : BootPoll → BootGet → Text → Text → Bool
news_in p failing log sig = false
news_in p gone log sig = false
news_in p (found b) log sig = is_news p b log sig

abbrev pub offline_in : BootGet → Bool
offline_in failing = false
offline_in gone = false
offline_in (found b) = boot_offline b

-- The account of the host, and the line of its boot log, that were heard last.
abbrev pub heard_sig : List BootPoll → Text
heard_sig [] = []
heard_sig (p ∷ past) = sig_in p.got (heard_sig past)

abbrev pub heard_log : List BootPoll → Text
heard_log [] = []
heard_log (p ∷ past) = log_in p.got p.log (heard_log past)

-- Whether the provider has given a message in one of the turns.
abbrev pub spoke : List BootPoll → Bool
spoke [] = false
spoke (p ∷ past) = spoke past || spoke_in p.got

abbrev pub published : List BootPoll → Bool
published [] = false
published (p ∷ past) = publishes_in p.got || published past

-- A sign of life: the turn's account or line is not the one heard last.
abbrev pub is_sign : BootPoll → List BootPoll → Bool
is_sign p past = news_in p p.got (heard_log past) (heard_sig past)

-- In the last turns without a gap the host was offline, in the first of them at `u`.
abbrev pub OfflineFrom : ℕ → List BootPoll → Type 0
OfflineFrom u [] = ⊥
OfflineFrom u (p ∷ past) = (offline_in p.got ≡ true) × ((p.now ≡ u) ⊎ OfflineFrom u past)

-- The last sign of life was in the turn that ended at `u`, and the wait began at `u` if there was none.
abbrev pub StillFrom : ℕ → ℕ → List BootPoll → Type 0
StillFrom u t [] = u ≡ t
StillFrom u t (p ∷ past) =
    ((is_sign p past ≡ true) × (u ≡ p.after)) ⊎ ((is_sign p past ≡ false) × StillFrom u t past)

-- An address has been published, and since the later of the last sign of life and the turn that published
-- the first address, `u`, there was no sign of life.
abbrev pub SilentFrom : ℕ → List BootPoll → Type 0
SilentFrom u [] = ⊥
SilentFrom u (p ∷ past) =
    (published (p ∷ past) ≡ true)
    × (((is_sign p past ≡ true) × (u ≡ p.after))
        ⊎ ((is_sign p past ≡ false)
            × (((published past ≡ false) × (u ≡ p.now)) ⊎ SilentFrom u past)))

-- The address that was published last.
abbrev pub PublishedIn : BootGet → Text → ℕ → Type 0
PublishedIn failing h n = ⊥
PublishedIn gone h n = ⊥
PublishedIn (found b) h n =
    ((b.ssh_host ≢ []) × (0 < b.ssh_port)) × ((h ≡ b.ssh_host) × (n ≡ b.ssh_port))

abbrev pub LastPublished : Text → ℕ → List BootPoll → Type 0
LastPublished h n [] = ⊥
LastPublished h n (p ∷ past) =
    PublishedIn p.got h n ⊎ ((publishes_in p.got ≡ false) × LastPublished h n past)
