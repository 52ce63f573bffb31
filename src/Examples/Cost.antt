-- ===== src/Examples/Cost.antt =====
-- internal/state/cost.go at concrete journals.
use larri.Prelude.{◌+◌, ◌≤◌, ◌≡◌, refl, false, some, List, [], ◌∷◌, ◌++◌, arith}
use larri.Prelude.Text.{bytes}
use larri.Core.State.{selected, creating, ready, destroyed, draining}
use larri.Core.Termination.{fault, host_failure, nothing_created}
use larri.State.Journal.{Entry}
use larri.State.Cost.{cost_billed, says_nothing_created}
use larri.State.Cost.Ending.{cost_after_end}
use larri.State.Cost.Bounds.{cost_bounds}
use larri.Daemon.Supervise.{ending}
use larri.Examples.{entry_to}

-- An hour and a half of a rig that reaches READY after ten minutes.
abbrev served : List Entry
served = entry_to 1000000000000 selected creating ∷ entry_to 1600000000000 creating ready ∷ []

abbrev ended : Entry
ended = entry_to 6400000000000 draining destroyed

-- A stale process journals READY behind the end.
abbrev late : List Entry
late = entry_to 6500000000000 ready ready ∷ []

cost_after_end_example :
    cost_billed (served ++ (ended ∷ late)) 9000000000000 0
    ≡ cost_billed (served ++ (ended ∷ [])) 7000000000000 0
cost_after_end_example =
    cost_after_end served ended late 9000000000000 7000000000000 0 refl (omega arith)
      ((refl, unfold says_nothing_created in refl), tt)

abbrev closed : Entry
closed = record ended {
  termination = some (record (unfold ending in ending fault host_failure 1) {
    evidence = (nothing_created, bytes "no label") ∷ [];
  });
}

cost_bounds_example :
    let c = cost_billed served 9000000000000 0 in
    (c.total_usd ≡ c.compute_usd + c.storage_usd)
    × (c.boot_usd ≤ c.total_usd)
    × (c.reached_ready ≡ false → c.boot_usd ≡ 0)
cost_bounds_example = cost_bounds served 9000000000000 0
