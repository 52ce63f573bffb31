-- ===== src/Daemon.antt =====
-- internal/daemon: supervision of a serving rig, teardown, search and fallback, bring-up, orphans and
-- absence.
pub mod Supervise
pub mod World
pub mod Down
pub mod Market
pub mod Disk
pub mod Survey
pub mod Fallback
pub mod Boot
pub mod Ready
pub mod Provision
pub mod Orphans
pub mod Absence
