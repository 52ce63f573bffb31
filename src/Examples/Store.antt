-- ===== src/Examples/Store.antt =====
-- internal/state: ids, the journal and the store at concrete inputs.
use larri.Prelude.{
  ℕ, ◌%◌, ◌^◌, ◌≤◌, ◌<◌, ◌≡◌, refl, true, false, none, some, List, [], ◌∷◌, ◌++◌, length,
}
use larri.Prelude.Text.{Text, text_eq}
use larri.Core.State.{draining, ready, selected, creating, destroyed, is_billable}
use larri.Core.Rig.{Rig}
use larri.State.Id.{is_valid_id, id_time, new_id}
use larri.State.Id.RoundTrip.{new_id-time}
use larri.State.Journal.{append, synced, write_failed, some_bytes, read_journal, stamp}
use larri.State.Journal.Durable.{read-append, append_after_torn}
use larri.State.Store.{Io, file_at, last_state, seen, billable}
use larri.State.Store.Billing.{seen-billable}
use larri.State.Store.Destroyed.{
  Call, transition_call, save_call, intent_call, run_calls, StoredDestroyed,
  run_calls-StoredDestroyed,
}
use larri.Examples.{id_1, instance_1, rig_in, fine, empty_journal, blank_disk, disk_of, entry_to}

abbrev ten : List ℕ
ten = 1 ∷ 2 ∷ 3 ∷ 4 ∷ 5 ∷ 6 ∷ 7 ∷ 8 ∷ 9 ∷ 10 ∷ []

new_id-time_example :
    (length ten < 10 → new_id 1700000000000 ten ≡ none)
    × (10 ≤ length ten
        → (id : Text) × (new_id 1700000000000 ten ≡ some id)
          × (is_valid_id id ≡ true)
          × (id_time id ≡ some (1700000000000 % 2 ^ 48)))
new_id-time_example = new_id-time 1700000000000 ten

read-append_example :
    (read_journal (append synced 5 empty_journal (entry_to 0 selected creating)).0
      ≡ read_journal empty_journal ++ (stamp 5 (entry_to 0 selected creating) ∷ []))
    × ((append synced 5 empty_journal (entry_to 0 selected creating)).0.tail ≡ none)
read-append_example =
    read-append synced 5 empty_journal (entry_to 0 selected creating) refl (unfold append in refl)

append_after_torn_example :
    let broken =
      (append (write_failed some_bytes) 5 empty_journal (entry_to 0 selected creating)).0 in
    ((append synced 6 broken (entry_to 0 creating ready)).1 ≡ false)
    × (read_journal (append synced 6 broken (entry_to 0 creating ready)).0
        ≡ read_journal empty_journal)
append_after_torn_example =
    append_after_torn 5 6 empty_journal (entry_to 0 selected creating) (entry_to 0 creating ready)
      refl

-- The rig as destroyed by one process, and a stale live copy held by another.
abbrev over : Rig
over = rig_in destroyed none

abbrev stale : Rig
stale = rig_in ready (some instance_1)

abbrev stale_calls : List Call
stale_calls =
    transition_call (fine 9) stale draining []
    ∷ save_call (fine 10) stale
    ∷ intent_call (fine 11) stale draining []
    ∷ []

run_calls-StoredDestroyed_example :
    (r' : Rig) × StoredDestroyed (run_calls (disk_of over) stale_calls) id_1 r'
run_calls-StoredDestroyed_example =
    run_calls-StoredDestroyed stale_calls (disk_of over) id_1 over
      (unfold file_at text_eq in refl, refl)

-- The journal's write fails.
abbrev full_disk : Io
full_disk = record (fine 7) { appended = write_failed some_bytes }

seen-billable_example :
    seen id_1 (billable blank_disk)
    ≡ is_billable (last_state id_1 destroyed (read_journal blank_disk.journal))
seen-billable_example = seen-billable blank_disk id_1
