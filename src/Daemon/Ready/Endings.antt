-- ===== src/Daemon/Ready/Endings.antt =====
-- When waitReady of internal/daemon/live.go ends.
use mathlib.Core.Path.{subst}
use larri.Prelude.{
  ℕ, zero, suc, ◌+◌, ◌-◌, ◌<◌, ◌≤◌, ◌≡◌, sym, Bool, true, false, not, ◌&&◌, ◌⊎◌, inl, inr, some,
  List, [], ◌∷◌, ltb, leb, length, take, All, arith, Bool-cases, if◌then◌else◌,
}
use larri.Daemon.Ready.{
  ReadyPoll, ReadyLimits, Readying, ReadyEnd, completed, connection_lost, exited, silent, stalled,
  past_deadline, given_up, ends, goes_on, is_dead, has_grown, is_not_alive, observe, ready_poll,
  ready_start,
}

-- Nothing in the turn shows that the runtime works.
abbrev pub IsQuiet : Readying → ReadyPoll → Type 0
IsQuiet s p = (has_grown s p ≡ false) × (p.moving ≡ false)

-- The cause of each ending, of a turn that began in `s`.
abbrev pub Cause : ReadyLimits → Readying → ReadyPoll → ReadyEnd → Type 0
Cause l s p completed = p.completes ≡ true
Cause l s p connection_lost = (is_dead p ≡ true) × (3 ≤ s.dead_session)
Cause l s p exited = (s.ever_logged ≡ true) × ((has_grown s p ≡ false) × (p.alive ≡ some false))
Cause l s p silent = (s.ever_logged ≡ false) × (IsQuiet s p × (l.cold < p.after - s.last_growth))
Cause l s p stalled = (s.ever_logged ≡ true) × (IsQuiet s p × (l.warm < p.after - s.last_growth))
Cause l s p past_deadline = ⊥
Cause l s p given_up = p.caller_ended ≡ true

-- The chain of tests of a turn.
tests :
    (a b c d f g : Bool) (s : Readying) (e : ReadyEnd)
    → (if a
        then ends completed
        else if b
        then ends connection_lost
        else if c
        then ends exited
        else if d
        then ends silent
        else if f
        then ends stalled
        else if g
        then ends given_up
        else goes_on s)
      ≡ ends e
    → ((a ≡ true) × (e ≡ completed))
      ⊎ (((b ≡ true) × (e ≡ connection_lost))
          ⊎ (((c ≡ true) × (e ≡ exited))
              ⊎ (((d ≡ true) × (e ≡ silent))
                  ⊎ (((f ≡ true) × (e ≡ stalled)) ⊎ ((g ≡ true) × (e ≡ given_up))))))
tests a b c d f g s e h = ground arith

lost_lem :
    (s : Readying) (p : ReadyPoll)
    → leb 4 (observe s p).dead_session ≡ true
    → (is_dead p ≡ true) × (3 ≤ s.dead_session)
unfolding observe
lost_lem s p h = ground arith

exited_lem :
    (s : Readying) (p : ReadyPoll)
    → ((observe s p).ever_logged && not (has_grown s p) && is_not_alive p.alive) ≡ true
    → (s.ever_logged ≡ true) × ((has_grown s p ≡ false) × (p.alive ≡ some false))
unfolding observe is_not_alive
exited_lem s p h = ground arith

silent_lem :
    (l : ReadyLimits) (s : Readying) (p : ReadyPoll)
    → (not (observe s p).ever_logged && ltb l.cold (p.after - (observe s p).last_growth)) ≡ true
    → (s.ever_logged ≡ false) × (IsQuiet s p × (l.cold < p.after - s.last_growth))
unfolding observe
silent_lem l s p h = ground arith

stalled_lem :
    (l : ReadyLimits) (s : Readying) (p : ReadyPoll)
    → ((observe s p).ever_logged && ltb l.warm (p.after - (observe s p).last_growth)) ≡ true
    → (s.ever_logged ≡ true) × (IsQuiet s p × (l.warm < p.after - s.last_growth))
unfolding observe
stalled_lem l s p h = ground arith

-- If a turn ends the wait for the runtime, then for the cause that its ending names. The connection is
-- lost: no answer came from the log or the counters, and three or more were counted before. The runtime has
-- exited: it had written to its log, the log did not grow, and its process is gone. It is silent, or
-- stalled after it had spoken: neither has the log grown nor the host moved, for more than the limit of
-- its case.
pub ready_poll-Cause :
    (l : ReadyLimits) (s : Readying) (p : ReadyPoll) (e : ReadyEnd)
    → ready_poll l s p ≡ ends e
    → Cause l s p e
unfolding ready_poll
ready_poll-Cause l s p e h = elim (tests _ _ _ _ _ _ (observe s p) e h) [
  | inl (c, q) ↦ subst (Cause l s p) (sym q) c
  | inr (inl (c, q)) ↦ subst (Cause l s p) (sym q) (lost_lem s p c)
  | inr (inr (inl (c, q))) ↦ subst (Cause l s p) (sym q) (exited_lem s p c)
  | inr (inr (inr (inl (c, q)))) ↦ subst (Cause l s p) (sym q) (silent_lem l s p c)
  | inr (inr (inr (inr (inl (c, q))))) ↦ subst (Cause l s p) (sym q) (stalled_lem l s p c)
  | inr (inr (inr (inr (inr (c, q))))) ↦ subst (Cause l s p) (sym q) c
]

kept_on :
    (a b c d f g : Bool) (s s' : Readying)
    → (if a
        then ends completed
        else if b
        then ends connection_lost
        else if c
        then ends exited
        else if d
        then ends silent
        else if f
        then ends stalled
        else if g
        then ends given_up
        else goes_on s)
      ≡ goes_on s'
    → s ≡ s'
kept_on a b c d f g s s' h = ground arith

goes_on-observe :
    (l : ReadyLimits) (s s' : Readying) (p : ReadyPoll)
    → ready_poll l s p ≡ goes_on s'
    → observe s p ≡ s'
unfolding ready_poll
goes_on-observe l s s' p h = kept_on _ _ _ _ _ _ (observe s p) s' h

-- The states that the loop comes to, each with the turns before it, the last first.
pub data Reached (l : ReadyLimits) (t : ℕ) : Readying → List ReadyPoll → Type 0 where
  begin : Reached l t (ready_start t) []
  turn :
      (s s' : Readying) (p : ReadyPoll) (past : List ReadyPoll)
      → Reached l t s past
      → ready_poll l s p ≡ goes_on s'
      → Reached l t s' (p ∷ past)

abbrev pub IsDead : ReadyPoll → Type 0
IsDead p = is_dead p ≡ true

abbrev Counted : Readying → List ReadyPoll → Type 0
Counted s past = (s.dead_session ≤ length past) × All IsDead (take s.dead_session past)

observe-Counted :
    (s : Readying) (p : ReadyPoll) (past : List ReadyPoll)
    → Counted s past
    → Counted (observe s p) (p ∷ past)
unfolding observe
observe-Counted s p past h = elim (Bool-cases (is_dead p)) [
  | inl e ↦ rw e (
    ground (arith, h.0),
    subst (λ n. All IsDead (take n (p ∷ past))) (next s.dead_session) (e, h.1),
  )
  | inr e ↦ rw e (omega arith, tt)
]
  where
    next : (n : ℕ) → suc n ≡ n + 1
    next n = omega arith

Reached-Counted :
    (l : ReadyLimits) (t : ℕ) {s : Readying} {past : List ReadyPoll}
    → Reached l t s past
    → Counted s past
Reached-Counted l t begin = (omega arith, tt)
Reached-Counted l t (turn s s' p past r h) =
    subst (λ x. Counted x (p ∷ past)) (goes_on-observe l s s' p h)
      (observe-Counted s p past (Reached-Counted l t r))

take_fewer :
    (m n : ℕ) (ps : List ReadyPoll) → m ≤ n → All IsDead (take n ps) → All IsDead (take m ps)
take_fewer zero n ps h k = tt
take_fewer (suc m) zero ps h k = absurd (omega (arith, h))
take_fewer (suc m) (suc n) [] h k = tt
take_fewer (suc m) (suc n) (p ∷ ps) h k = (k.0, take_fewer m n ps (omega (arith, h)) k.1)

-- The wait gives up the connection as lost only after four turns or more, the last four of which had no
-- answer from the log or the counters.
pub ready_poll_lost :
    (l : ReadyLimits) (t : ℕ) (s : Readying) (p : ReadyPoll) (past : List ReadyPoll)
    → Reached l t s past
    → ready_poll l s p ≡ ends connection_lost
    → (3 ≤ length past) × All IsDead (take 4 (p ∷ past))
ready_poll_lost l t s p past r h =
    let lost = ready_poll-Cause l s p connection_lost h in
    let k = Reached-Counted l t r in
    (omega (arith, lost.1, k.0), (lost.0, take_fewer 3 s.dead_session past lost.1 k.1))
