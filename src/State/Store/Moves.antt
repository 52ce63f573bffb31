-- ===== src/State/Store/Moves.antt =====
-- What one Transition of internal/state/store.go writes, on success and on each error.
use larri.Prelude.{◌≡◌, ◌⊎◌, refl, true, false, none, some, [], ◌∷◌, ◌++◌, arith}
use larri.Prelude.Text.{Text}
use larri.Core.State.{LifecycleState, destroyed, is_destroyed}
use larri.Core.Rig.{Rig}
use larri.State.Id.{is_valid_id}
use larri.State.Journal.{read_journal, stamp, append}
use larri.State.Journal.Durable.{read-append}
use larri.State.Store.{
  Disk, holds, Io, StoreError, already_destroyed, append_failed, write_failed, rig, file_at,
  put_file, load, guard_destroyed, intent_entry, record_intent, write, moved, finish_transition,
  transition,
}
use larri.State.Store.Files.{file_at-put_file_self}

-- The parts of a transition that returned no error.
record Done (io : Io) (d : Disk) (r : Rig) (to : LifecycleState) (note : Text) : Type 0 where
  valid : is_valid_id r.id ≡ true
  synced : (append io.appended io.now d.journal (intent_entry io.now r to note)).1 ≡ false
  journal :
      (transition io d r to note).0.journal
      ≡ (append io.appended io.now d.journal (intent_entry io.now r to note)).0
  rigs : (transition io d r to note).0.rigs ≡ put_file r.id (holds (moved io.now r to note)) d.rigs
  copy : (transition io d r to note).1 ≡ moved io.now r to note

transition-Done :
    (io : Io) (d : Disk) (r : Rig) (to : LifecycleState) (note : Text)
    → (transition io d r to note).2 ≡ none
    → Done io d r to note
unfolding transition finish_transition record_intent write
transition-Done io d r to note h = ground arith

-- A transition that returns no error stores the rig that the caller is left with.
pub transition_stored :
    (io : Io) (d : Disk) (r : Rig) (to : LifecycleState) (note : Text)
    → (transition io d r to note).2 ≡ none
    → let (d', r', e) = transition io d r to note in
      (load d' r.id ≡ rig r') × (r'.state ≡ to) × (r'.id ≡ r.id) × (r'.end ≡ r.end)
transition_stored io d r to note h =
    let k = transition-Done io d r to note h in
    (
      unfold load in
          rw k.valid (
            rw (k.rigs, k.copy)
              (rw (file_at-put_file_self r.id (holds (moved io.now r to note)) d.rigs))),
      rw k.copy (unfold moved in refl),
      rw k.copy (unfold moved in refl),
      rw k.copy (unfold moved in refl),
    )

-- A transition that returns no error, on a journal that ends in a newline, has added its intent as the
-- last entry that a reader of the journal sees; loading the rig gives the caller's rig, which has the
-- new state.
pub transition_ok :
    (io : Io) (d : Disk) (r : Rig) (to : LifecycleState) (note : Text)
    → d.journal.tail ≡ none
    → (transition io d r to note).2 ≡ none
    → let (d', r', e) = transition io d r to note in
      (read_journal d'.journal
        ≡ read_journal d.journal ++ (stamp io.now (intent_entry io.now r to note) ∷ []))
      × ((load d' r.id ≡ rig r') × (r'.state ≡ to) × (r'.id ≡ r.id) × (r'.end ≡ r.end))
transition_ok io d r to note t h =
    let k = transition-Done io d r to note h in
    (
      rw k.journal
          (read-append io.appended io.now d.journal (intent_entry io.now r to note) t k.synced).0,
      transition_stored io d r to note h,
    )

-- A transition that fails before its intent is journalled changes neither the disk nor the caller's
-- rig; one that fails at the journal changes no snapshot and not the caller's rig; only a failed write
-- of the snapshot leaves the caller's rig moved.
pub transition_error :
    (io : Io) (d : Disk) (r : Rig) (to : LifecycleState) (note : Text) (e : StoreError)
    → (transition io d r to note).2 ≡ some e
    → let (d', r', _) = transition io d r to note in
      ((d' ≡ d) × (r' ≡ r))
      ⊎ (((e ≡ append_failed) × (d'.rigs ≡ d.rigs) × (r' ≡ r))
          ⊎ ((e ≡ write_failed) × (r' ≡ moved io.now r to note)))
unfolding transition finish_transition record_intent write
transition_error io d r to note e h = ground arith

-- No transition changes the rig's id.
pub id-transition :
    (io : Io) (d : Disk) (r : Rig) (to : LifecycleState) (note : Text)
    → (transition io d r to note).1.id ≡ r.id
unfolding transition finish_transition moved
id-transition io d r to note = ground arith

-- A move of a live copy of a rig that is stored as destroyed is refused, and nothing is written.
pub stale_move_refused :
    (io : Io) (d : Disk) (r cur : Rig) (to : LifecycleState) (note : Text)
    → is_valid_id r.id ≡ true
    → io.lock_works ≡ true
    → file_at r.id d.rigs ≡ some (holds cur)
    → cur.state ≡ destroyed
    → is_destroyed r.state ≡ false
    → transition io d r to note ≡ (d, r, some already_destroyed)
unfolding transition guard_destroyed load
stale_move_refused io d r cur to note v l f s live = ground arith
