-- ===== src/Daemon/Absence.antt =====
-- internal/daemon/absence.go: the operator's word that a destroyed rig never had an instance.
pub mod Recorded
use larri.Prelude.{
  ℕ, Bool, true, false, not, ◌||◌, Option, none, some, List, [], ◌∷◌, ◌++◌, if◌then◌else◌,
}
use larri.Prelude.Text.{Text, is_empty, bytes, trim_space}
use larri.Core.State.{destroyed, is_destroyed}
use larri.Core.Termination.{Termination, operator, operator_request, evidence_at, nothing_created}
use larri.Core.Rig.{Rig, Instance}
use larri.State.Journal.{Entry, read_journal, entries_for}
use larri.State.Store.{Disk, Io, StoreError, transition}
use larri.Daemon.Supervise.{ending, no_cost}
use larri.Daemon.World.{Found, unanswered, nothing, found, instance_for_rig, wrong_provider}
use larri.Daemon.Down.{put_evidence}

pub record AbsenceWorld : Type 0 where
  pub now : ℕ
  pub provider_is : Option Text
  pub journal_reads : Bool
  pub listing : Option (List Instance)
  pub io : Io

pub data AbsenceError : Type 0 where
  no_account held_elsewhere still_alive already_recorded : AbsenceError
  journal_unreadable had_instance label_found : AbsenceError
  not_moved : StoreError → AbsenceError

-- `rig.End.Evidence[core.EvidenceNothingCreated] != ""`
unfoldable pub is_recorded : Option Termination → Bool
is_recorded none = false
is_recorded (some t) = not (is_empty (evidence_at nothing_created t.evidence))

unfoldable pub holds_instance : Option Instance → Bool
holds_instance none = false
holds_instance (some i) = not (is_empty i.instance_id)

unfoldable pub names_instance : List Entry → Bool
names_instance [] = false
names_instance (e ∷ es) = not (is_empty e.instance_id) || names_instance es

unfoldable pub is_found : Found → Bool
is_found (found i) = true
is_found _ = false

-- The checks before the record, the first that fails.
unfoldable pub absence_refusal : AbsenceWorld → Disk → Rig → Text → Option AbsenceError
unfolding is_recorded holds_instance names_instance is_found
absence_refusal w d r how =
    if is_empty (trim_space how)
    then some no_account
    else if wrong_provider w.provider_is r
    then some held_elsewhere
    else if not (is_destroyed r.state)
    then some still_alive
    else if is_recorded r.end
    then some already_recorded
    else if not w.journal_reads
    then some journal_unreadable
    else if holds_instance r.instance_of
    then some had_instance
    else if names_instance (entries_for (read_journal d.journal) r.id)
    then some had_instance
    else if is_found (instance_for_rig w.listing r)
    then some label_found
    else none

abbrev operator_end : ℕ → Termination
operator_end now = record (ending operator operator_request now) {
  summary = bytes "recorded by the operator as never created";
}

unfoldable pub recorded_end : ℕ → Option Termination → Text → Termination
unfolding put_evidence
recorded_end now end how =
    let t : Termination = elim end [ none ↦ operator_end now | some t ↦ t ] in
    record t {
      evidence = put_evidence nothing_created (bytes "operator: " ++ how) t.evidence;
      cost = no_cost;
    }

abbrev pub absence_note : Text
absence_note = bytes "operator recorded that nothing was created"

unfoldable pub record_nothing_created :
    AbsenceWorld → Disk → Rig → Text → Disk × Rig × Option AbsenceError
unfolding absence_refusal recorded_end
record_nothing_created w d r how = elim (absence_refusal w d r how) [
  | some e ↦ (d, r, some e)
  | none ↦
      let r' = record r { end = some (recorded_end w.now r.end (trim_space how)) } in
      let (d', r'', e) = transition w.io d r' destroyed absence_note in
      (d', r'', elim e [ none ↦ none | some f ↦ some (not_moved f) ])
]
