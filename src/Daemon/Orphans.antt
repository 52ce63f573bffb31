-- ===== src/Daemon/Orphans.antt =====
-- internal/daemon/orphans.go: what bills at the provider and is not accounted for here.
-- An instance's raw marker is taken to carry the rig id of its label. Describe, which prints an orphan,
-- is not modelled.
pub mod Listing
pub mod Sweep
use larri.Prelude.{
  ℕ, ◌+◌, Bool, true, false, not, Option, none, some, List, [], ◌∷◌, ◌++◌, if◌then◌else◌,
}
use larri.Prelude.Text.{Text, text_eq, is_empty, bytes}
use larri.Core.State.{
  LifecycleState, idle, searching, selected, creating, provisioned, bootstrapping, ready, degraded,
  stopped, draining, destroyed, failed, orphaned, is_destroyed, expects_instance,
}
use larri.Core.Termination.{operator, orphan_sweep}
use larri.Core.Rig.{Rig, Instance}
use larri.State.Journal.{read_journal}
use larri.State.Store.{Disk, Io, Loaded, rig, missing, failed_load, load, list_rigs, transition}
use larri.State.Cost.{cost_for_rig}
use larri.Daemon.Supervise.{GetAnswer, unreachable, present, absent, ending}
use larri.Daemon.World.{ConfirmTurn}
use larri.Daemon.Down.{Confirmed, confirmed, not_confirmed, cancelled, confirm_absent}

pub data OrphanReason : Type 0 where
  no_record still_here : OrphanReason
  expects_nothing : LifecycleState → OrphanReason

pub record Orphan : Type 0 where
  pub held : Instance
  pub is_known : Bool
  pub reason : OrphanReason

-- `known[id]`: the last rig of the list with that id.
unfoldable pub known_rig : Text → List Rig → Option Rig
known_rig id [] = none
known_rig id (r ∷ rs) = elim (known_rig id rs) [
  | some s ↦ some s
  | none ↦ if text_eq r.id id then some r else none
]

-- none: the instance is the one that a tracked rig should have.
unfoldable pub orphan_reason : Option Rig → Option OrphanReason
orphan_reason none = some no_record
orphan_reason (some r) =
    if is_destroyed r.state
    then some still_here
    else if not (expects_instance r.state)
    then some (expects_nothing r.state)
    else none

unfoldable pub orphans_among : List Rig → List Instance → List Orphan
unfolding known_rig orphan_reason
orphans_among rigs [] = []
orphans_among rigs (i ∷ is) =
    let rest = orphans_among rigs is in
    let known = known_rig i.label rigs in
    if is_empty i.label then rest else elim (orphan_reason known) [
      | none ↦ rest
      | some why ↦
          record { held = i; is_known = elim known [ none ↦ false | some _ ↦ true ]; reason = why }
          ∷ rest
    ]

-- Orphans: none is a listing that was not answered. A store that cannot list its rigs knows none.
unfoldable pub orphans : Disk → Option (List Instance) → Option (List Orphan)
unfolding orphans_among
orphans d none = none
orphans d (some live) =
    some (orphans_among (elim (list_rigs d) [ none ↦ [] | some rigs ↦ rigs ]) live)

-- What the provider answers about one orphan, and what the file system does when it is recorded.
pub record OrphanWorld : Type 0 where
  pub now : ℕ
  pub answer : GetAnswer
  pub turns : List ConfirmTurn
  pub io : Io

pub data OrphanError : Type 0 where
  get_failed not_here wait_cancelled still_unconfirmed : OrphanError

unfoldable pub destroy_orphan : OrphanWorld → Option OrphanError
destroy_orphan w = elim w.answer [
  | unreachable ↦ some get_failed
  | absent ↦ some not_here
  | present ↦ elim (confirm_absent w.turns) [
    | cancelled ↦ some wait_cancelled
    | not_confirmed ↦ some still_unconfirmed
    | confirmed ↦ none
  ]
]

-- The string behind a state.
unfoldable pub state_text : LifecycleState → Text
state_text idle = bytes "IDLE"
state_text searching = bytes "SEARCHING"
state_text selected = bytes "SELECTED"
state_text creating = bytes "CREATING"
state_text provisioned = bytes "PROVISIONED"
state_text bootstrapping = bytes "BOOTSTRAPPING"
state_text ready = bytes "READY"
state_text degraded = bytes "DEGRADED"
state_text stopped = bytes "STOPPED"
state_text draining = bytes "DRAINING"
state_text destroyed = bytes "DESTROYED"
state_text failed = bytes "FAILED"
state_text orphaned = bytes "ORPHANED"

unfoldable pub reason_text : OrphanReason → Text
unfolding state_text
reason_text no_record = bytes "local state has no record of this rig"
reason_text still_here = bytes "local state says DESTROYED, but the resource is still here"
reason_text (expects_nothing s) =
    bytes "local state says " ++ (state_text s ++ bytes ", which should have no resource behind it")

-- recordReaped, from what Load returned: the error of the move is dropped.
unfoldable pub reap : OrphanWorld → Disk → Orphan → Loaded → Disk
unfolding reason_text
reap w d o missing = d
reap w d o (failed_load e) = d
reap w d o (rig r) =
    let t = record (ending operator orphan_sweep w.now) {
      summary = bytes "destroyed by orphan sweep";
      evidence =
          (bytes "instance", o.held.instance_id) ∷ (bytes "reason", reason_text o.reason) ∷ [];
      cost = cost_for_rig (read_journal d.journal) r w.now;
    } in
    (transition w.io d (record r { end = some t }) destroyed (bytes "orphan sweep")).0

unfoldable pub record_reaped : OrphanWorld → Disk → Orphan → Disk
unfolding reap
record_reaped w d o = reap w d o (load d o.held.label)

pub record Swept : Type 0 where
  pub left : Disk
  pub count : ℕ
  pub first_error : Option OrphanError

-- One turn of SweepOrphans' loop.
unfoldable pub sweep_one : OrphanWorld → Swept → Orphan → Swept
unfolding destroy_orphan record_reaped
sweep_one w s o = elim (destroy_orphan w) [
  | some e ↦ record s { first_error = elim s.first_error [ none ↦ some e | some f ↦ some f ] }
  | none ↦ record s {
    left = if o.is_known then record_reaped w s.left o else s.left;
    count = s.count + 1;
  }
]

unfoldable pub sweep_from : (Instance → OrphanWorld) → Swept → List Orphan → Swept
unfolding sweep_one
sweep_from w s [] = s
sweep_from w s (o ∷ os) = sweep_from w (sweep_one (w o.held) s o) os

-- SweepOrphans: none is a listing that was not answered.
unfoldable pub sweep_orphans :
    (Instance → OrphanWorld) → Disk → Option (List Instance) → Option Swept
unfolding orphans sweep_from
sweep_orphans w d listing = elim (orphans d listing) [
  | none ↦ none
  | some os ↦ some (sweep_from w (record { left = d; count = 0; first_error = none }) os)
]
