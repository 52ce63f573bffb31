-- ===== src/Examples.antt =====
-- Runs at concrete inputs: the data that they share.
mod Store
mod Label
mod Cost
mod Sizing
mod Rank
mod Supervise
mod Teardown
mod Provision
mod Fallback
mod Gguf
mod Llamacpp
mod Variants
mod Boot
mod Ready
use larri.Prelude.{ℕ, Bool, true, false, Option, none, some, List, [], ◌∷◌}
use larri.Prelude.Text.{Text, bytes}
use larri.Core.State.{LifecycleState, selected, ready, destroyed, creating}
use larri.Core.Criteria.{Offer}
use larri.Core.Rig.{Rig, Instance}
use larri.State.Journal.{Entry, JournalFile, synced}
use larri.State.Store.{Disk, Snapshot, holds, Io, replaced}

abbrev id_1 : Text
id_1 = bytes "01ARZ3NDEKTSV4RRFFQ69G5FAV"

abbrev offer_at : {F : Type 0} → F → F → F → Offer F
offer_at price rel net = record {
  provider = bytes "vast";
  offer_id = bytes "o1";
  gpu_model = bytes "A";
  gpu_count = 1;
  vram_per_gpu_gb = 24;
  cpu_cores = 8;
  ram_gb = 32;
  disk_gb = 100;
  region = bytes "US";
  price_hr = price;
  interruptible = false;
  reliability = rel;
  net_down_mbps = net;
  cuda_version = bytes "12";
  compute_capability = 89;
  driver_version = [];
  certified = true;
  verification = bytes "verified";
  machine_id = [];
  low_stock = false;
  gpu_vendor = [];
}

abbrev instance_1 : Instance
instance_1 = record {
  provider = bytes "vast";
  instance_id = bytes "i1";
  price_hr = 300000;
  storage_hr = 1000;
  running = true;
  label = id_1;
}

abbrev rig_in : LifecycleState → Option Instance → Rig
rig_in s i = record {
  id = id_1;
  state = s;
  offer = offer_at 250000 0 0;
  instance_of = i;
  local_port = 8000;
  history = [];
  created_at = 1000;
  end = none;
}

-- A call on which nothing fails.
abbrev fine : ℕ → Io
fine t = record { now = t; lock_works = true; appended = synced; written = replaced }

abbrev empty_journal : JournalFile
empty_journal = record { lines = []; tail = none }

abbrev blank_disk : Disk
blank_disk = record { journal = empty_journal; rigs = [] }

abbrev disk_of : Rig → Disk
disk_of r = record { journal = empty_journal; rigs = (r.id, holds r) ∷ [] }

abbrev entry_to : ℕ → LifecycleState → LifecycleState → Entry
entry_to t a b = record {
  at = t;
  rig_id = id_1;
  from = a;
  to = b;
  note = [];
  provider = bytes "vast";
  offer = bytes "o1";
  instance_id = [];
  price_hr = 300000;
  storage_hr = 1000;
  billed = true;
  termination = none;
}
