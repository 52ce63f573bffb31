-- ===== src/Core/State/Laws.antt =====
-- What the classifications of internal/core/state.go say of one another.
use larri.Prelude.{◌≡◌, ◌⊎◌, true, false, arith}
use larri.Core.State.{LifecycleState, failed, orphaned, is_billable, expects_instance, is_terminal}

-- A billable state either expects an instance at the provider or is FAILED or ORPHANED; a state
-- that expects an instance is billable; and the terminal state is not billable.
pub billable-expects_instance :
    (s : LifecycleState)
    → (is_billable s ≡ true → (expects_instance s ≡ true) ⊎ ((s ≡ failed) ⊎ (s ≡ orphaned)))
      × (expects_instance s ≡ true → is_billable s ≡ true)
      × (is_terminal s ≡ true → is_billable s ≡ false)
unfolding is_billable expects_instance is_terminal
billable-expects_instance s = ground arith
