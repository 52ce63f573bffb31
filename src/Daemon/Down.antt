-- ===== src/Daemon/Down.antt =====
-- internal/daemon/up.go: Down, the teardown that confirms absence before it records an ending.
pub mod Evidence
pub mod Order
pub mod GaveUp
use larri.Prelude.{
  ℕ, Bool, true, false, not, ◌||◌, Option, none, some, List, [], ◌∷◌, ◌++◌, if◌then◌else◌,
}
use larri.Prelude.Text.{Text, text_eq, bytes}
use larri.Core.State.{LifecycleState, draining, destroyed, is_destroyed}
use larri.Core.Termination.{Termination, operator, operator_request, nothing_created}
use larri.Core.Rig.{Rig, Instance}
use larri.State.Journal.{read_journal}
use larri.State.Store.{
  Disk, Io, StoreError, already_destroyed, Loaded, rig, missing, failed_load, load, record_intent,
  transition,
}
use larri.State.Store.Destroyed.{Call, run_calls}
use larri.State.Cost.{cost_for_rig}
use larri.Daemon.Supervise.{GetAnswer, unreachable, present, absent, ending}
use larri.Daemon.World.{
  Action, intent_journalled, proxy_cleared, destroy_called, ConfirmTurn, Found, unanswered, nothing,
  found, instance_for_rig, wrong_provider,
}

-- What one run of Down meets. `turns` are the turns of confirmAbsent before its deadline; `others` is
-- what other processes do between the intent and the record of the end.
pub record DownWorld : Type 0 where
  pub now : ℕ
  pub provider_is : Option Text
  pub has_proxy : Bool
  pub intent_io : Io
  pub end_io : Io
  pub listing : Option (List Instance)
  pub turns : List ConfirmTurn
  pub others : List Call

pub data DownError : Type 0 where
  other_provider label_unanswered context_ended unconfirmed : DownError
  store_failed : StoreError → DownError

pub record Downed : Type 0 where
  pub left : Disk
  pub copy : Rig
  pub trace : List Action
  pub failed : Option DownError

pub data Confirmed : Type 0 where
  confirmed not_confirmed cancelled : Confirmed

-- confirmAbsent: only a Get that answers, and answers that there is no instance, confirms.
unfoldable pub confirm_absent : List ConfirmTurn → Confirmed
confirm_absent [] = not_confirmed
confirm_absent (t ∷ ts) =
    let rest = confirm_absent ts in
    elim t.answer [ absent ↦ confirmed | _ ↦ if t.cancelled then cancelled else rest ]

-- adoptEnding: the stored rig, if it is stored as destroyed.
unfoldable pub adopt_ending : Disk → Rig → Option Rig
adopt_ending d r = elim (load d r.id) [
  | rig stored ↦ if is_destroyed stored.state then some stored else none
  | missing ↦ none
  | failed_load e ↦ none
]

-- recordEnd, from what Transition returned.
unfoldable pub end_result : Disk × Rig × Option StoreError → List Action → Downed
end_result (d, r, none) trace = record { left = d; copy = r; trace = trace; failed = none }
end_result (d, r, some already_destroyed) trace = elim (adopt_ending d r) [
  | some stored ↦ record { left = d; copy = stored; trace = trace; failed = none }
  | none ↦ record {
    left = d;
    copy = r;
    trace = trace;
    failed = some (store_failed already_destroyed);
  }
]
end_result (d, r, some e) trace = record {
  left = d;
  copy = r;
  trace = trace;
  failed = some (store_failed e);
}

unfoldable pub record_end : Io → Disk → Rig → Text → List Action → Downed
unfolding end_result
record_end io d r note trace = end_result (transition io d r destroyed note) trace

abbrev pub no_label : Text
no_label = bytes "no instance carries this rig's label"

-- `term.Evidence[k] = v`
unfoldable pub put_evidence : Text → Text → List (Text × Text) → List (Text × Text)
put_evidence k v [] = (k, v) ∷ []
put_evidence k v ((j, w) ∷ m) = if text_eq j k then (j, v) ∷ m else (j, w) ∷ put_evidence k v m

-- Down with an instance to destroy, which the rig then holds.
unfoldable pub destroy_instance :
    DownWorld → Disk → Rig → Instance → Termination → List Action → Downed
unfolding record_end
destroy_instance w d r i t trace =
    let trace' = trace ++ (destroy_called i.instance_id ∷ []) in
    elim (confirm_absent w.turns) [
      | cancelled ↦ record { left = d; copy = r; trace = trace'; failed = some context_ended }
      | not_confirmed ↦ record { left = d; copy = r; trace = trace'; failed = some unconfirmed }
      | confirmed ↦
          let t' = record t { cost = cost_for_rig (read_journal d.journal) r w.now } in
          record_end w.end_io d (record r { end = some t' }) t.summary trace'
    ]

-- Down with no instance on record, from what the label lookup found.
unfoldable pub down_looked_up : DownWorld → Disk → Rig → Termination → List Action → Found → Downed
unfolding record_end
down_looked_up w d r t trace (found i) =
    destroy_instance w d (record r { instance_of = some i }) i t trace
down_looked_up w d r t trace unanswered = record {
  left = d;
  copy = r;
  trace = trace;
  failed = some label_unanswered;
}
down_looked_up w d r t trace nothing =
    let t' = record t { evidence = put_evidence nothing_created no_label t.evidence } in
    record_end w.end_io d (record r { end = some t' }) (bytes "no instance was ever created") trace

-- Down once the intent is journalled: `d` is the disk as others have left it.
unfoldable pub down_drained : DownWorld → Disk → Rig → Termination → List Action → Downed
down_drained w d r t trace = elim r.instance_of [
  | some i ↦ destroy_instance w d r i t trace
  | none ↦ down_looked_up w d r t trace (instance_for_rig w.listing r)
]

unfoldable pub or_operator : ℕ → Option Termination → Termination
or_operator now none = record (ending operator operator_request now) {
  summary = bytes "requested from the CLI";
}
or_operator now (some t) = t

-- Down behind its intent.
unfoldable pub down_intended : DownWorld → Disk × Option StoreError → Rig → Termination → Downed
down_intended w (d, some e) r t = record {
  left = d;
  copy = r;
  trace = [];
  failed = some (store_failed e);
}
down_intended w (d, none) r t =
    down_drained w (run_calls d w.others) (record r { state = draining }) t
      (intent_journalled draining ∷ (if w.has_proxy then proxy_cleared ∷ [] else []))

unfoldable pub down : DownWorld → Disk → Rig → Option Termination → Downed
unfolding down_intended or_operator
down w d r term =
    if wrong_provider w.provider_is r
    then record { left = d; copy = r; trace = []; failed = some other_provider }
    else if is_destroyed r.state
    then record { left = d; copy = r; trace = []; failed = none }
    else elim (adopt_ending d r) [
      | some stored ↦ record { left = d; copy = stored; trace = []; failed = none }
      | none ↦
          let t = or_operator w.now term in
          down_intended w (record_intent w.intent_io d r draining t.summary) r t
    ]
