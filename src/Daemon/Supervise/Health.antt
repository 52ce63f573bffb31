-- ===== src/Daemon/Supervise/Health.antt =====
-- What the health checks of internal/daemon/supervise.go write to the state directory.
use larri.Prelude.{ℕ, ◌+◌, ◌≤◌, ◌<◌, ◌≡◌, ◌⊎◌, true, false, List, ◌++◌, arith, if◌then◌else◌}
use larri.Core.State.{degraded, ready}
use larri.Core.Rig.{Rig}
use larri.State.Store.{Disk, transition}
use larri.Daemon.Supervise.{
  failing_note, recovered_note, SupervisePolicy, Poll, Watch, Warned, check_health, check_idle,
  budget_warning, health_interval, poll, idle_warning,
}

health_interval-pos : (p : SupervisePolicy) → 0 < health_interval p
unfolding health_interval
health_interval-pos p = ground arith

same_rig :
    (p : SupervisePolicy) (w : Poll) (s : Watch)
    → ((budget_warning p w s).0.held ≡ s.held)
      × ((budget_warning p w s).0.failures ≡ s.failures)
      × ((budget_warning p w s).0.last_health ≡ s.last_health)
unfolding budget_warning
same_rig p w s = (ground arith, ground arith, ground arith)

-- What may be left of the disk of a poll: it as it was, or one of two transitions of the held rig.
abbrev pub Writes : Disk → Poll → Rig → ℕ → Type 0
Writes d w r failures =
    (d ≡ w.disk)
    ⊎ (((d ≡ (transition w.io w.disk r degraded failing_note).0)
          × (w.probe_passes ≡ false)
          × (failures ≡ 2))
        ⊎ ((d ≡ (transition w.io w.disk r ready recovered_note).0)
            × (w.probe_passes ≡ true)
            × (r.state ≡ degraded)
            × (0 < failures)))

health-Writes :
    (p : SupervisePolicy) (w : Poll) (s : Watch) (ws : List Warned)
    → Writes (check_health p w s ws).left w s.held s.failures
unfolding check_health
health-Writes p w s ws = ground arith

idle-Writes :
    (p : SupervisePolicy) (w : Poll) (s : Watch) (ws : List Warned)
    → Writes (check_idle p w s ws).left w s.held s.failures
unfolding check_idle
idle-Writes p w s ws =
    let (warned, more) = idle_warning p w s.warned_idle in
    ground (arith, health-Writes p w (record s { warned_idle = warned }) (ws ++ more))

-- A poll writes to the state directory in two cases alone: the third failed probe in a row journals
-- DEGRADED, and the first probe that passes on a DEGRADED rig journals READY.
pub poll-Writes :
    (p : SupervisePolicy) (w : Poll) (s : Watch) → Writes (poll p w s).left w s.held s.failures
unfolding poll
poll-Writes p w s =
    let (s', ws) = budget_warning p w s in ground (arith, same_rig p w s, idle-Writes p w s' ws)

-- How a poll moves the count of failed probes.
abbrev pub Counts : SupervisePolicy → Poll → Watch → Watch → Type 0
Counts p w s s' =
    ((s'.failures ≡ s.failures) × (s'.last_health ≡ s.last_health))
    ⊎ ((s'.failures ≡ (if w.probe_passes then 0 else s.failures + 1))
        × (s'.last_health ≡ w.now)
        × (s.last_health + health_interval p ≤ w.now))

health-Counts :
    (p : SupervisePolicy) (w : Poll) (s : Watch) (ws : List Warned)
    → Counts p w s (check_health p w s ws).watch
unfolding check_health
health-Counts p w s ws = ground (arith, health_interval-pos p)

idle-Counts :
    (p : SupervisePolicy) (w : Poll) (s : Watch) (ws : List Warned)
    → Counts p w s (check_idle p w s ws).watch
unfolding check_idle
idle-Counts p w s ws =
    let (warned, more) = idle_warning p w s.warned_idle in
    ground (arith, health-Counts p w (record s { warned_idle = warned }) (ws ++ more))

-- A poll leaves the count of failed probes and the time of the last probe as they are, or, if at least
-- the interval has passed since that time, sets the time to now and the count to nothing for a probe
-- that passed and to one more for one that failed.
pub poll_failures : (p : SupervisePolicy) (w : Poll) (s : Watch) → Counts p w s (poll p w s).watch
unfolding poll
poll_failures p w s =
    let (s', ws) = budget_warning p w s in ground (arith, same_rig p w s, idle-Counts p w s' ws)
