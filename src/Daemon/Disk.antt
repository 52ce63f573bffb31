-- ===== src/Daemon/Disk.antt =====
-- internal/daemon/up.go: how much disk to rent.
pub mod Enough
use larri.Prelude.{ℕ, ◌+◌, ◌==◌, Option, none, some, ltb, leb, if◌then◌else◌}
use larri.Prelude.Float.{Float}
use larri.Sizing.Plan.{SizingPlan, u64}

module _ (Fl : Float) where
  abbrev pub runtime_image_bytes : ℕ
  runtime_image_bytes = 8600000000

  abbrev pub default_disk_gb : ℕ
  default_disk_gb = 60

  unfoldable pub disk_need_gb : SizingPlan Fl → ℕ
  disk_need_gb p =
      let bytes_held = Fl.of_nat (u64 (runtime_image_bytes + p.weights_bytes)) in
      let need = Fl.div (Fl.mul bytes_held (Fl.lit 115 100)) (Fl.lit 1000000000 1) in
      let gb = Fl.to_u64 need in if Fl.lt (Fl.of_nat gb) need then gb + 1 else gb

  -- sizeDisk: none is the refusal.
  unfoldable pub size_disk : ℕ → SizingPlan Fl → Option ℕ
  unfolding disk_need_gb
  size_disk asked p =
      let need = disk_need_gb p in
      if asked == 0
      then some (if leb need default_disk_gb then default_disk_gb else need)
      else if ltb asked need
      then none
      else some asked

  unfoldable pub cold_start_bytes : SizingPlan Fl → ℕ
  cold_start_bytes p = u64 (runtime_image_bytes + p.weights_bytes)
