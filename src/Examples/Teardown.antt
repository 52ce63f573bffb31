-- ===== src/Examples/Teardown.antt =====
-- internal/daemon: Down, the orphans and the operator's record at concrete answers.
use larri.Prelude.{
  ◌+◌, ◌≡◌, ◌⊎◌, refl, true, false, none, some, List, [], ◌∷◌, ◌++◌, All, Among, map,
}
use larri.Prelude.Text.{Text, text_eq, is_empty, bytes}
use larri.Core.State.{draining, destroyed, ready}
use larri.Core.Rig.{Rig, Instance, provider_name}
use larri.State.Id.{is_valid_id}
use larri.State.Journal.{append}
use larri.State.Store.{
  Disk, holds, unreadable, file_at, load, rig, guard_destroyed, record_intent, transition, write,
}
use larri.State.Store.Destroyed.{run_calls}
use larri.Daemon.Supervise.{GetAnswer, present, absent, unreachable}
use larri.Daemon.World.{Action, intent_journalled, proxy_cleared, ConfirmTurn, wrong_provider}
use larri.Daemon.Down.{
  DownWorld, confirm_absent, adopt_ending, or_operator, down, down_drained, destroy_instance,
  record_end,
}
use larri.Daemon.Down.Evidence.{IsOver, Absence, down-IsOver}
use larri.Daemon.Down.Order.{DestroysAtMost, down-order}
use larri.Daemon.Down.GaveUp.{down-gave_up}
use larri.Daemon.Orphans.{
  Orphan, OrphanWorld, orphans, destroy_orphan, Swept, sweep_from, no_record,
}
use larri.Daemon.Orphans.Sweep.{HeardGone, sweep_from_ok, orphans_of_unreadable}
use larri.Daemon.Absence.{AbsenceWorld}
use larri.Examples.{id_1, instance_1, rig_in, fine, disk_of}

abbrev serving : Rig
serving = rig_in ready (some instance_1)

abbrev turn : GetAnswer → ConfirmTurn
turn a = record { answer = a; cancelled = false }

-- The provider cannot be reached at first, then shows the instance, then has it no more.
abbrev answers : DownWorld
answers = record {
  now = 3000000000000;
  provider_is = some (bytes "vast");
  has_proxy = true;
  intent_io = fine 3000000000000;
  end_io = fine 3000000000001;
  listing = none;
  turns = turn unreachable ∷ turn present ∷ turn absent ∷ [];
  others = [];
}

down-IsOver_example :
    let out = down answers (disk_of serving) serving none in
    ((ready ≡ destroyed) × (out.left ≡ disk_of serving) × (out.copy ≡ serving))
    ⊎ (IsOver id_1 out × ((load (disk_of serving) id_1 ≡ rig out.copy) ⊎ Absence answers serving))
down-IsOver_example = down-IsOver answers (disk_of serving) serving none (
    unfold down wrong_provider provider_name adopt_ending load is_valid_id file_at text_eq
      record_intent append run_calls down_drained destroy_instance confirm_absent record_end
      transition guard_destroyed write in
    refl)

down-order_example :
    let t = or_operator 3000000000000 none in
    ((down answers (disk_of serving) serving none).trace ≡ [])
    ⊎ (((record_intent (fine 3000000000000) (disk_of serving) serving draining t.summary).1 ≡ none)
        × ((rest : List Action) × (((down answers (disk_of serving) serving none).trace
                ≡ intent_journalled draining ∷ ((proxy_cleared ∷ []) ++ rest))
              × DestroysAtMost answers serving rest)))
down-order_example = down-order answers (disk_of serving) serving none

-- The deadline passes while the instance is still there.
abbrev silent : DownWorld
silent = record answers { turns = turn unreachable ∷ turn present ∷ [] }

down-gave_up_example :
    ((down silent (disk_of serving) serving none).left
      ≡ run_calls
          (record_intent
            (fine 3000000000000)
            (disk_of serving)
            serving
            draining
            (or_operator 3000000000000 none).summary).0
          [])
    × ((down silent (disk_of serving) serving none).copy.state ≡ draining)
down-gave_up_example = down-gave_up silent (disk_of serving) serving none (
    unfold down wrong_provider provider_name adopt_ending load is_valid_id file_at text_eq
      record_intent append run_calls down_drained destroy_instance confirm_absent in
    refl)

abbrev stray : Instance
stray = record instance_1 { instance_id = bytes "i2"; label = bytes "other" }

abbrev gone_after : Instance → OrphanWorld
gone_after i = record {
  now = 5;
  answer = present;
  turns = turn present ∷ turn absent ∷ [];
  io = fine 5;
}

abbrev stray_orphan : Orphan
stray_orphan = record { held = stray; is_known = false; reason = no_record }

abbrev unswept : Swept
unswept = record { left = disk_of serving; count = 0; first_error = none }

sweep_from_ok_example :
    All (λ (o : Orphan). HeardGone (gone_after o.held)) (stray_orphan ∷ [])
    × ((unswept.first_error ≡ none)
        × ((sweep_from gone_after unswept (stray_orphan ∷ [])).count ≡ 0 + 1))
sweep_from_ok_example =
    sweep_from_ok gone_after unswept (stray_orphan ∷ [])
      (unfold sweep_from destroy_orphan confirm_absent in refl)

-- Beside the serving rig's file one that cannot be read.
abbrev id_2 : Text
id_2 = bytes "01ARZ3NDEKTSV4RRFFQ69G5FAW"

abbrev spoilt : Disk
spoilt = record (disk_of serving) { rigs = (id_1, holds serving) ∷ (id_2, unreadable) ∷ [] }

orphans_of_unreadable_example :
    (os : List Orphan) × ((orphans spoilt (some (instance_1 ∷ [])) ≡ some os)
      × All (λ i. (is_empty i.label ≡ true) ⊎ Among i (map (λ o. o.held) os)) (instance_1 ∷ []))
orphans_of_unreadable_example =
    orphans_of_unreadable spoilt id_2 (instance_1 ∷ []) (unfold is_valid_id in refl)
      (unfold file_at text_eq in refl)

abbrev never : Rig
never = rig_in destroyed none

abbrev checked : AbsenceWorld
checked = record {
  now = 9;
  provider_is = some (bytes "vast");
  journal_reads = true;
  listing = some [];
  io = fine 9;
}
