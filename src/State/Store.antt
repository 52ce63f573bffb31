-- ===== src/State/Store.antt =====
-- internal/state/store.go: the state directory.
-- A rig's snapshot file is absent, unreadable or holds a rig. The lock of a rig is held through one
-- call of Transition or Save, so calls of several processes are a sequence of calls, each with its
-- own copy of the rig. What the file system answers is an argument, `Io`.
pub mod Files
pub mod Destroyed
pub mod Moves
pub mod Billing
use larri.Prelude.{
  ℕ, ◌≡◌, Bool, true, false, ◌||◌, not, Option, none, some, List, [], ◌∷◌, ◌++◌, if◌then◌else◌,
}
use larri.Prelude.Text.{Text, text_eq, is_empty}
use larri.Prelude.Order.{sort_stable, text_lt}
use larri.Core.State.{LifecycleState, destroyed, is_destroyed, is_billable}
use larri.Core.Termination.{Termination}
use larri.Core.Rig.{Rig, Transition, billed_price_hr}
use larri.State.Id.{is_valid_id}
use larri.State.Journal.{Entry, JournalFile, AppendOutcome, append, read_journal}

pub data Snapshot : Type 0 where
  holds : Rig → Snapshot
  unreadable : Snapshot

pub record Disk : Type 0 where
  pub journal : JournalFile
  pub rigs : List (Text × Snapshot)

-- The rename of a snapshot is atomic: a failure before it leaves the old file, a failed sync of the
-- directory the new one.
pub data WriteOutcome : Type 0 where
  replaced not_replaced dir_sync_failed : WriteOutcome

pub record Io : Type 0 where
  pub now : ℕ
  pub lock_works : Bool
  pub appended : AppendOutcome
  pub written : WriteOutcome

pub data StoreError : Type 0 where
  malformed_id lock_failed unreadable_rig already_destroyed append_failed write_failed : StoreError

-- The snapshot files, by id.
unfoldable pub file_at : Text → List (Text × Snapshot) → Option Snapshot
file_at k [] = none
file_at k ((j, s) ∷ m) = if text_eq j k then some s else file_at k m

unfoldable pub put_file : Text → Snapshot → List (Text × Snapshot) → List (Text × Snapshot)
put_file k s [] = (k, s) ∷ []
put_file k s ((j, t) ∷ m) = if text_eq j k then (j, s) ∷ m else (j, t) ∷ put_file k s m

pub data Loaded : Type 0 where
  rig : Rig → Loaded
  missing : Loaded
  failed_load : StoreError → Loaded

unfoldable pub load : Disk → Text → Loaded
load d id = if not (is_valid_id id) then failed_load malformed_id else elim (file_at id d.rigs) [
  | none ↦ missing
  | some s ↦ elim s [ holds r ↦ rig r | unreadable ↦ failed_load unreadable_rig ]
]

-- The ids of the snapshot files, those that are valid.
unfoldable pub stored_ids : List (Text × Snapshot) → List Text
stored_ids [] = []
stored_ids ((id, _) ∷ m) = let rest = stored_ids m in if is_valid_id id then id ∷ rest else rest

-- The rigs of some ids, none if one of them cannot be loaded.
unfoldable pub load_all : Disk → List Text → Option (List Rig)
load_all d [] = some []
load_all d (id ∷ ids) =
    let rest = load_all d ids in
    elim (load d id) [
      | failed_load e ↦ none
      | missing ↦ rest
      | rig r ↦ elim rest [ none ↦ none | some rs ↦ some (r ∷ rs) ]
    ]

-- `List`: newest first.
unfoldable pub list_rigs : Disk → Option (List Rig)
unfolding stored_ids load_all
list_rigs d = load_all d (sort_stable (λ a b. text_lt b a) (stored_ids d.rigs))

unfoldable pub intent_entry : ℕ → Rig → LifecycleState → Text → Entry
intent_entry now r to note = record {
  at = now;
  rig_id = r.id;
  from = r.state;
  to = to;
  note = note;
  provider = r.offer.provider;
  offer = if is_empty r.offer.provider then [] else r.offer.offer_id;
  instance_id = elim r.instance_of [ none ↦ [] | some i ↦ i.instance_id ];
  price_hr = billed_price_hr r;
  storage_hr = elim r.instance_of [ none ↦ 0 | some i ↦ i.storage_hr ];
  billed = true;
  termination = if is_destroyed to then r.end else none;
}

-- The new disk, and the error if there is one.
unfoldable pub record_intent : Io → Disk → Rig → LifecycleState → Text → Disk × Option StoreError
unfolding intent_entry
record_intent io d r to note =
    let (file, failed) = append io.appended io.now d.journal (intent_entry io.now r to note) in
    (record d { journal = file }, if failed then some append_failed else none)

-- guardDestroyed, from what Load returned.
unfoldable pub guard_loaded : Loaded → Rig → LifecycleState → Option StoreError
guard_loaded (failed_load e) r to = if is_destroyed to then none else some e
guard_loaded missing r to = none
guard_loaded (rig cur) r to =
    if not (is_destroyed cur.state)
    then none
    else if not (is_destroyed to) || not (is_destroyed r.state)
    then some already_destroyed
    else none

unfoldable pub guard_destroyed : Disk → Rig → LifecycleState → Option StoreError
unfolding guard_loaded
guard_destroyed d r to = guard_loaded (load d r.id) r to

-- `write`: marshal, write beside, sync, rename, sync the directory.
unfoldable pub write : WriteOutcome → Disk → Rig → Disk × Option StoreError
write replaced d r = (record d { rigs = put_file r.id (holds r) d.rigs }, none)
write not_replaced d r = (d, some write_failed)
write dir_sync_failed d r = (record d { rigs = put_file r.id (holds r) d.rigs }, some write_failed)

unfoldable pub save : Io → Disk → Rig → Disk × Option StoreError
save io d r =
    if not (is_valid_id r.id)
    then (d, some malformed_id)
    else if not io.lock_works
    then (d, some lock_failed)
    else elim (guard_destroyed d r r.state) [ some e ↦ (d, some e) | none ↦ write io.written d r ]

-- The caller's rig after the move: its history grows and its state changes.
unfoldable pub moved : ℕ → Rig → LifecycleState → Text → Rig
moved now r to note = record r {
  state = to;
  history = r.history ++ (record { at = now; from = r.state; to = to; note = note } ∷ []);
}

-- What Transition does once the guard has passed and the intent is journalled.
unfoldable pub finish_transition :
    Io → Disk × Option StoreError → Rig → LifecycleState → Text → Disk × Rig × Option StoreError
unfolding moved
finish_transition io (d, some e) r to note = (d, r, some e)
finish_transition io (d, none) r to note =
    let r' = moved io.now r to note in let (d', e) = write io.written d r' in (d', r', e)

-- The new disk, the caller's rig, which the method changes in place, and the error.
unfoldable pub transition : Io → Disk → Rig → LifecycleState → Text → Disk × Rig × Option StoreError
unfolding finish_transition
transition io d r to note =
    if not (is_valid_id r.id)
    then (d, r, some malformed_id)
    else if not io.lock_works
    then (d, r, some lock_failed)
    else elim (guard_destroyed d r to) [
      | some e ↦ (d, r, some e)
      | none ↦ finish_transition io (record_intent io d r to note) r to note
    ]

-- The last state of each rig in the journal, in order of first sight.
unfoldable pub last_state : Text → LifecycleState → List Entry → LifecycleState
last_state id s [] = s
last_state id s (e ∷ es) = last_state id (if text_eq e.rig_id id then e.to else s) es

unfoldable pub seen : Text → List Text → Bool
seen id [] = false
seen id (j ∷ ids) = text_eq j id || seen id ids

unfoldable pub order_from : List Text → List Entry → List Text
unfolding seen
order_from ids [] = ids
order_from ids (e ∷ es) = order_from (if seen e.rig_id ids then ids else ids ++ (e.rig_id ∷ [])) es

-- `last[id].Billable()`; every id in the order has an entry, so the seed is never read.
unfoldable pub keep_billable : List Entry → List Text → List Text
unfolding last_state
keep_billable es [] = []
keep_billable es (id ∷ ids) =
    let rest = keep_billable es ids in
    if is_billable (last_state id destroyed es) then id ∷ rest else rest

unfoldable pub billable : Disk → List Text
unfolding order_from keep_billable
billable d = let es = read_journal d.journal in keep_billable es (order_from [] es)
