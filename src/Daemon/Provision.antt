-- ===== src/Daemon/Provision.antt =====
-- internal/daemon/up.go: the end of Up, from the minted id to the instance, and what a failed create
-- comes to. The search and the sizing, which come before, are Survey; the confirmation is not
-- modelled. The texts of errors are `cause`.
pub mod Intent
pub mod Failed
use larri.Prelude.{ℕ, Bool, true, false, Option, none, some, List, [], ◌∷◌, ◌++◌, if◌then◌else◌}
use larri.Prelude.Text.{Text, bytes}
use larri.Core.State.{creating, provisioned, failed, destroyed}
use larri.Core.Termination.{Termination, fault, host_failure, nothing_created}
use larri.Core.Rig.{Rig, Instance}
use larri.State.Store.{Disk, Io, StoreError, save, record_intent, transition}
use larri.State.Store.Destroyed.{Call, run_calls}
use larri.Daemon.Supervise.{ending}
use larri.Daemon.World.{
  Action, intent_journalled, create_called, ErrorClass, provider_unknown_outcome, Found, unanswered,
  nothing, found, instance_for_rig,
}
use larri.Daemon.Down.{DownWorld, Downed, down, no_label}

-- What Create answers. A refusal carries its text, whether the call was never sent, and its class.
pub data Created : Type 0 where
  made : Instance → Created
  refused : Text → Bool → ErrorClass → Created

pub record CreateWorld : Type 0 where
  pub now : ℕ
  pub is_free : Bool
  pub save_io : Io
  pub makes_keys : Bool
  pub intent_io : Io
  -- what other processes do while Create runs
  pub others : List Call
  pub answer : Created
  pub provisioned_io : Io
  pub failed_io : Io
  pub listing : Option (List Instance)
  pub closed_io : Io
  -- what teardownAfterFailure adds on the host: its last status, GPU, price and instance, as text
  pub host_evidence : List (Text × Text)
  pub teardown : DownWorld

pub data CreateError : Type 0 where
  rig_held no_keys create_failed : CreateError
  not_stored : StoreError → CreateError

-- `copy` is none where Up returns no rig. The trace ends with the call of Create.
pub record Upped : Type 0 where
  pub left : Disk
  pub copy : Option Rig
  pub trace : List Action
  pub error : Option CreateError

unfoldable pub never_created : ℕ → Rig → Text → Text → Termination
never_created now r cause why = record (ending fault host_failure now) {
  summary = bytes "create failed before an instance existed: " ++ cause;
  evidence =
      (bytes "error", cause)
      ∷ (bytes "provider", r.offer.provider)
      ∷ (bytes "offer", r.offer.offer_id)
      ∷ (nothing_created, why)
      ∷ [];
}

-- closeNeverCreated: an error of the move is a warning.
unfoldable pub close_never_created : CreateWorld → Disk → Rig → Text → Text → Disk × Rig
unfolding never_created
close_never_created w d r cause why =
    let r' = record r { end = some (never_created w.now r cause why) } in
    let (d', r'', _) = transition w.closed_io d r' destroyed (bytes "no instance was created") in
    (d', r'')

-- teardownAfterFailure: an error of Down is a warning.
unfoldable pub teardown_after_failure : CreateWorld → Disk → Rig → Text → Disk × Rig
teardown_after_failure w d r cause =
    let t = record (ending fault host_failure w.now) {
      summary = bytes "bring-up failed: " ++ cause;
      evidence = (bytes "error", cause) ∷ w.host_evidence;
    } in
    let out = down w.teardown d r (some t) in (out.left, out.copy)

unfoldable pub is_unknown_outcome : ErrorClass → Bool
is_unknown_outcome provider_unknown_outcome = true
is_unknown_outcome _ = false

-- resolveFailedCreate behind its move to FAILED, from what the label lookup found.
unfoldable pub resolve_found : CreateWorld → Disk → Rig → Text → ErrorClass → Found → Disk × Rig
unfolding close_never_created teardown_after_failure is_unknown_outcome
resolve_found w d r cause kind unanswered = (d, r)
resolve_found w d r cause kind (found i) =
    teardown_after_failure w d (record r { instance_of = some i }) cause
resolve_found w d r cause kind nothing =
    if is_unknown_outcome kind then (d, r) else close_never_created w d r cause no_label

unfoldable pub resolve_moved :
    CreateWorld → Disk × Rig × Option StoreError → Text → Bool → ErrorClass → Disk × Rig
unfolding resolve_found
resolve_moved w (d, r, _) cause not_sent kind =
    if not_sent
    then close_never_created w d r cause (bytes "the create was never sent")
    else resolve_found w d r cause kind (instance_for_rig w.listing r)

unfoldable pub resolve_failed_create :
    CreateWorld → Disk → Rig → Text → Bool → ErrorClass → Disk × Rig
unfolding resolve_moved
resolve_failed_create w d r cause not_sent kind =
    resolve_moved w (transition w.failed_io d r failed (bytes "create failed: " ++ cause)) cause
      not_sent kind

-- Up behind the call of Create: `d` is the disk as others have left it.
unfoldable pub create_answered : CreateWorld → Disk → Rig → List Action → Created → Upped
unfolding resolve_failed_create
create_answered w d r trace (made i) =
    let (d', r', e) =
      transition w.provisioned_io d (record r { instance_of = some i }) provisioned
        (bytes "instance " ++ i.instance_id) in
    record {
      left = d';
      copy = some r';
      trace = trace;
      error = elim e [ none ↦ none | some f ↦ some (not_stored f) ];
    }
create_answered w d r trace (refused cause not_sent kind) =
    let (d', r') = resolve_failed_create w d r cause not_sent kind in
    record { left = d'; copy = some r'; trace = trace; error = some create_failed }

abbrev gives_up : Disk → CreateError → Upped
gives_up d e = record { left = d; copy = none; trace = []; error = some e }

unfoldable pub create_intended : CreateWorld → Disk × Option StoreError → Rig → Upped
unfolding create_answered
create_intended w (d, some e) r = gives_up d (not_stored e)
create_intended w (d, none) r =
    create_answered w (run_calls d w.others) (record r { state = creating })
      (intent_journalled creating ∷ create_called r.offer.offer_id ∷ []) w.answer

unfoldable pub create_saved : CreateWorld → Disk × Option StoreError → Rig → Upped
unfolding create_intended
create_saved w (d, some e) r = gives_up d (not_stored e)
create_saved w (d, none) r =
    if w.makes_keys
    then create_intended w (record_intent w.intent_io d r creating (bytes "create intent")) r
    else gives_up d no_keys

-- Up from the new rig, which is in SELECTED.
unfoldable pub create_rig : CreateWorld → Disk → Rig → Upped
unfolding create_saved
create_rig w d r = if w.is_free then create_saved w (save w.save_io d r) r else gives_up d rig_held
