-- ===== src/Daemon/Disk/Enough.antt =====
-- The disk that internal/daemon/up.go settles on, against the need.
use larri.Prelude.{ℕ, ◌≤◌, ◌≡◌, some, arith}
use larri.Prelude.Float.{Float}
use larri.Sizing.Plan.{SizingPlan}
use larri.Daemon.Disk.{size_disk, disk_need_gb}

module _ (Fl : Float) where
  -- A disk that is settled on holds what the plan needs. One that was asked for is taken as it is, and
  -- otherwise it is the need or the default, whichever is more.
  pub size_disk-le :
      (asked : ℕ) (p : SizingPlan Fl) (d : ℕ)
      → size_disk Fl asked p ≡ some d
      → disk_need_gb Fl p ≤ d
  unfolding size_disk
  size_disk-le asked p d h = ground arith
