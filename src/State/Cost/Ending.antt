-- ===== src/State/Cost/Ending.antt =====
-- What an ending does to the cost that internal/state/cost.go replays.
use larri.Prelude.{
  ℕ, ◌<◌, ◌≡◌, refl, sym, ap, ◌∙◌, true, false, ◌||◌, some, List, [], ◌∷◌, ◌++◌, All, arith,
}
use larri.Core.State.{destroyed, is_destroyed, is_billable}
use larri.State.Journal.{Entry}
use larri.State.Cost.{
  Replay, start, replay_entry, replay, says_nothing_created, close, cost_billed, summarise,
}

pub replay-append :
    (b : ℕ) (r : Replay) (es fs : List Entry) → replay b r (es ++ fs) ≡ replay b (replay b r es) fs
unfolding replay
replay-append b r [] fs = refl
replay-append b r (e ∷ es) fs = replay-append b (replay_entry b r e) es fs

-- An entry that says neither DESTROYED nor that nothing was created.
abbrev pub IsLate : Entry → Type 0
IsLate e = (is_destroyed e.to ≡ false) × (says_nothing_created e ≡ false)

abbrev pub IsStamped : Entry → Type 0
IsStamped e = 0 < e.at

-- The rig has ended, and the first entry has been seen.
abbrev HasEnded : Replay → Type 0
HasEnded r = (r.state ≡ some destroyed) × (0 < r.first_at)

late_entry : (b : ℕ) (r : Replay) (e : Entry) → HasEnded r → IsLate e → replay_entry b r e ≡ r
unfolding replay_entry
late_entry b r e h l = ground arith

late_entries :
    (b : ℕ) (r : Replay) (es : List Entry) → HasEnded r → All IsLate es → replay b r es ≡ r
unfolding replay
late_entries b r [] h l = refl
late_entries b r (e ∷ es) h l = rw (late_entry b r e h l.0) (late_entries b r es h l.1)

destroyed_entry :
    (b : ℕ) (r : Replay) (e : Entry)
    → e.to ≡ destroyed
    → IsStamped e
    → HasEnded (replay_entry b r e)
unfolding replay_entry
destroyed_entry b r e h s = ground arith

close_ended : (b now : ℕ) (r : Replay) → r.state ≡ some destroyed → close b now r ≡ close b 0 r
unfolding close is_billable
close_ended b now r h = ground arith

-- Once a stamped entry has journalled DESTROYED, neither later entries, if none of them says
-- DESTROYED or that nothing was created, nor the passing of time change the cost summary.
pub cost_after_end :
    (es : List Entry) (d : Entry) (late : List Entry) (now now' b : ℕ)
    → d.to ≡ destroyed
    → IsStamped d
    → All IsLate late
    → cost_billed (es ++ (d ∷ late)) now b ≡ cost_billed (es ++ (d ∷ [])) now' b
unfolding cost_billed
cost_after_end es d late now now' b h s l =
    let r = replay b start es in
    let e = destroyed_entry b r d h s in
    rw (replay-append b start es (d ∷ late), replay-append b start es (d ∷ []))
      (rw (late_entries b (replay_entry b r d) late e l) (
        ap summarise (
          close_ended b now (replay_entry b r d) e.0
          ∙ sym (close_ended b now' (replay_entry b r d) e.0))))

confirmed_entry :
    (b : ℕ) (r : Replay) (e : Entry)
    → (replay_entry b r e).confirmed_absent ≡ (r.confirmed_absent || says_nothing_created e)
unfolding replay_entry
confirmed_entry b r e = ground arith

confirmed_stays :
    (b : ℕ) (r : Replay) (es : List Entry)
    → r.confirmed_absent ≡ true
    → (replay b r es).confirmed_absent ≡ true
unfolding replay
confirmed_stays b r [] h = h
confirmed_stays b r (e ∷ es) h =
    confirmed_stays b (replay_entry b r e) es (ground (arith, confirmed_entry b r e))

confirmed_close : (b now : ℕ) (r : Replay) → (close b now r).confirmed_absent ≡ r.confirmed_absent
unfolding close
confirmed_close b now r = ground arith

confirmed_replay :
    (es : List Entry) (e : Entry) (fs : List Entry) (now b : ℕ)
    → says_nothing_created e ≡ true
    → (close b now (replay b start (es ++ (e ∷ fs)))).confirmed_absent ≡ true
unfolding replay
confirmed_replay es e fs now b h =
    rw (replay-append b start es (e ∷ fs), confirmed_close)
      (confirmed_stays b (replay_entry b (replay b start es) e) fs
        (ground (arith, confirmed_entry b (replay b start es) e)))

-- One entry whose termination carries the evidence that nothing was created makes the whole cost
-- zero, whatever stands before and behind it.
pub cost_of_nothing_created :
    (es : List Entry) (e : Entry) (fs : List Entry) (now b : ℕ)
    → says_nothing_created e ≡ true
    → let c = cost_billed (es ++ (e ∷ fs)) now b in
      (c.total_usd ≡ 0) × (c.compute_usd ≡ 0) × (c.storage_usd ≡ 0) × (c.boot_usd ≡ 0)
unfolding cost_billed summarise
cost_of_nothing_created es e fs now b h = ground (arith, confirmed_replay es e fs now b h)
