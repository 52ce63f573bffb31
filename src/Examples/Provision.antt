-- ===== src/Examples/Provision.antt =====
-- internal/daemon/up.go: a create that is answered, and two that fail.
use larri.Prelude.{◌≡◌, inr, refl, true, false, none, some, []}
use larri.Prelude.Text.{text_eq, bytes}
use larri.Core.State.{selected, creating, failed}
use larri.Core.Rig.{Rig}
use larri.State.Id.{is_valid_id}
use larri.State.Journal.{append}
use larri.State.Store.{
  file_at, put_file, load, rig, seen, billable, guard_destroyed, record_intent, write, transition,
}
use larri.Daemon.World.{provider_unknown_outcome, instance_for_rig}
use larri.Daemon.Down.{DownWorld}
use larri.Daemon.Provision.{CreateWorld, made, is_unknown_outcome, resolve_failed_create}
use larri.Daemon.Provision.Failed.{unsure-billable}
use larri.Examples.{id_1, instance_1, rig_in, fine, disk_of}

abbrev minted : Rig
minted = rig_in selected none

abbrev asked : Rig
asked = rig_in creating none

abbrev teardown_1 : DownWorld
teardown_1 = record {
  now = 9;
  provider_is = some (bytes "vast");
  has_proxy = false;
  intent_io = fine 9;
  end_io = fine 9;
  listing = some [];
  turns = [];
  others = [];
}

abbrev create_1 : CreateWorld
create_1 = record {
  now = 5;
  is_free = true;
  save_io = fine 5;
  makes_keys = true;
  intent_io = fine 6;
  others = [];
  answer = made instance_1;
  provisioned_io = fine 7;
  failed_io = fine 7;
  listing = some [];
  closed_io = fine 8;
  host_evidence = [];
  teardown = teardown_1;
}

-- The call timed out, and the listing shows nothing yet.
unsure-billable_example :
    let (d', r') =
      resolve_failed_create create_1
        (disk_of asked)
        asked
        (bytes "timeout")
        false
        provider_unknown_outcome in
    (load d' id_1 ≡ rig r') × (r'.state ≡ failed) × (seen id_1 (billable d') ≡ true)
unsure-billable_example =
    unsure-billable create_1 (disk_of asked) asked (bytes "timeout") provider_unknown_outcome refl
      (unfold transition guard_destroyed load is_valid_id file_at text_eq record_intent append write
          put_file in
        refl)
      (inr (
        unfold transition guard_destroyed load is_valid_id file_at text_eq record_intent append
              write instance_for_rig in
            refl,
        unfold is_unknown_outcome in refl,
      ))
