-- ===== src/Daemon/Absence/Recorded.antt =====
-- What RecordNothingCreated of internal/daemon/absence.go has checked, and what its record does.
use larri.Prelude.{
  ℕ, ◌≡◌, inl, inr, refl, sym, false, Option, none, some, List, [], ◌∷◌, arith, Option-cases,
}
use mathlib.Core.Path.{subst}
use larri.Prelude.Text.{Text, text_eq_refl, is_empty, trim_space}
use larri.Core.State.{destroyed}
use larri.Core.Termination.{Termination, evidence_at, nothing_created}
use larri.Core.Rig.{Rig}
use larri.State.Journal.{read_journal, entries_for}
use larri.State.Store.{Disk, transition}
use larri.Daemon.World.{instance_for_rig, wrong_provider}
use larri.Daemon.Down.{put_evidence}
use larri.Daemon.Provision.Failed.{IsFree, ended-IsFree}
use larri.Daemon.Absence.{
  AbsenceWorld, AbsenceError, holds_instance, names_instance, is_found, absence_refusal,
  recorded_end, absence_note, record_nothing_created,
}

evidence_at-put_evidence :
    (k v : Text) (m : List (Text × Text)) → evidence_at k (put_evidence k v m) ≡ v
unfolding evidence_at put_evidence
evidence_at-put_evidence k v [] = rw (text_eq_refl k) refl
evidence_at-put_evidence k v ((j, u) ∷ m) = ground (arith, evidence_at-put_evidence k v m)

-- All that larri can check itself has been checked.
abbrev pub IsChecked : AbsenceWorld → Disk → Rig → Type 0
IsChecked w d r =
    (r.state ≡ destroyed)
    × (wrong_provider w.provider_is r ≡ false)
    × (holds_instance r.instance_of ≡ false)
    × (names_instance (entries_for (read_journal d.journal) r.id) ≡ false)
    × (is_found (instance_for_rig w.listing r) ≡ false)

refusal-IsChecked :
    (w : AbsenceWorld) (d : Disk) (r : Rig) (how : Text)
    → absence_refusal w d r how ≡ none
    → IsChecked w d r
unfolding absence_refusal
refusal-IsChecked w d r how h = ground arith

recorded_end-says :
    (now : ℕ) (end : Option Termination) (how : Text)
    → is_empty (evidence_at nothing_created (recorded_end now end how).evidence) ≡ false
unfolding recorded_end
recorded_end-says now end how = rw (evidence_at-put_evidence nothing_created _ _) refl

refused_lem :
    (w : AbsenceWorld) (d : Disk) (r : Rig) (how : Text) (e : AbsenceError)
    → absence_refusal w d r how ≡ some e
    → (record_nothing_created w d r how).2 ≡ none
    → ⊥
unfolding record_nothing_created
refused_lem w d r how e a h = ground arith

recorded_lem :
    (w : AbsenceWorld) (d : Disk) (r : Rig) (how : Text)
    → absence_refusal w d r how ≡ none
    → let x =
        transition w.io d
          (record r { end = some (recorded_end w.now r.end (trim_space how)) })
          destroyed
          absence_note in
      let left : Disk × Rig =
        ((record_nothing_created w d r how).0, (record_nothing_created w d r how).1) in
      let after : Disk × Rig = (x.0, x.1) in
      (left ≡ after) × ((record_nothing_created w d r how).2 ≡ none → x.2 ≡ none)
unfolding record_nothing_created
recorded_lem w d r how a = rw (a, record_nothing_created) (refl, λ h. ground arith)

-- A record that returns no error has checked that the rig is destroyed, is this provider's, and that
-- neither its record, nor the journal, nor an answered listing shows an instance; if the journal ended
-- in a newline, the rig is stored as destroyed with what its entries cost, at any time, being zero.
pub recorded-IsFree :
    (w : AbsenceWorld) (d : Disk) (r : Rig) (how : Text)
    → d.journal.tail ≡ none
    → let (d', r', e) = record_nothing_created w d r how in
      e ≡ none → IsChecked w d r × IsFree r.id (d', r')
recorded-IsFree w d r how t h = elim (Option-cases (absence_refusal w d r how)) [
  | inr e ↦ absurd (refused_lem w d r how e.0 e.1 h)
  | inl e ↦
      let x =
        transition w.io d (record r { end = some (recorded_end w.now r.end (trim_space how)) })
          destroyed absence_note in
      let k = recorded_lem w d r how e in
      (
        refusal-IsChecked w d r how e,
        subst (λ y. IsFree r.id (y.0, y.1)) (sym k.0)
            (ended-IsFree w.io d r (recorded_end w.now r.end (trim_space how)) absence_note
              (recorded_end-says w.now r.end (trim_space how)) t (k.1 h)),
      )
]
