-- ===== src/Core/State.antt =====
-- internal/core/state.go: the lifecycle states, what each says about money, and the tristate.
pub mod Laws
use larri.Prelude.{Bool, true, false, not}

pub data LifecycleState : Type 0 where
  idle searching selected creating provisioned bootstrapping ready degraded : LifecycleState
  stopped draining destroyed failed orphaned : LifecycleState

pub LifecycleState-discrete : Discrete LifecycleState
LifecycleState-discrete = hlevel

unfoldable pub is_billable : LifecycleState → Bool
is_billable idle = false
is_billable searching = false
is_billable selected = false
is_billable destroyed = false
is_billable _ = true

unfoldable pub expects_instance : LifecycleState → Bool
expects_instance creating = true
expects_instance provisioned = true
expects_instance bootstrapping = true
expects_instance ready = true
expects_instance degraded = true
expects_instance draining = true
expects_instance stopped = true
expects_instance _ = false

unfoldable pub is_terminal : LifecycleState → Bool
is_terminal destroyed = true
is_terminal _ = false

-- `s == StateDestroyed`, `s == StateDegraded` and the like.
abbrev pub is_destroyed : LifecycleState → Bool
is_destroyed destroyed = true
is_destroyed _ = false

abbrev pub is_degraded : LifecycleState → Bool
is_degraded degraded = true
is_degraded _ = false

abbrev pub is_ready : LifecycleState → Bool
is_ready ready = true
is_ready _ = false

-- `forbid` is Go's zero value.
pub data Tristate : Type 0 where
  forbid allow require : Tristate

unfoldable pub permits : Tristate → Bool → Bool
permits require has = has
permits allow has = true
permits forbid has = not has
