-- ===== src/State.antt =====
-- internal/state: what survives a crash. The journal records what was attempted, the snapshots
-- what is current, and cost is replayed from the journal.
pub mod Id
pub mod Journal
pub mod Store
pub mod Cost
