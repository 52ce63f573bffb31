-- ===== src/Daemon/World.antt =====
-- What internal/daemon asks of the provider and of the clock, as the answers that one run gets, and the
-- calls that it makes, in order. What other processes do to the state directory in between is a list
-- of calls of the store.
use larri.Prelude.{Bool, true, false, not, ◌&&◌, Option, none, some, List, [], ◌∷◌, if◌then◌else◌}
use larri.Prelude.Text.{Text, text_eq, is_empty}
use larri.Core.State.{LifecycleState}
use larri.Core.Rig.{Rig, Instance, provider_name}
use larri.Daemon.Supervise.{GetAnswer}

pub data Action : Type 0 where
  intent_journalled : LifecycleState → Action
  proxy_cleared : Action
  create_called : Text → Action
  destroy_called : Text → Action

-- The classes of internal/errs that the teardown and the bring-up tell apart.
pub data ErrorClass : Type 0 where
  unknown criteria_unsatisfiable provider_transient provider_unknown_outcome : ErrorClass
  host_failure model_failure destroy_unconfirmed wiring security : ErrorClass

-- `Retryable` and `FatalToRig`.
unfoldable pub is_retryable : ErrorClass → Bool
is_retryable provider_transient = true
is_retryable _ = false

unfoldable pub is_fatal_to_rig : ErrorClass → Bool
is_fatal_to_rig wiring = false
is_fatal_to_rig provider_transient = false
is_fatal_to_rig _ = true

-- One turn of confirmAbsent: what Get answers, and whether the context ends in the wait behind it.
pub record ConfirmTurn : Type 0 where
  pub answer : GetAnswer
  pub cancelled : Bool

-- The first listed instance that carries the rig's label.
unfoldable pub labelled : Text → List Instance → Option Instance
labelled id [] = none
labelled id (i ∷ is) =
    if not (is_empty i.label) && text_eq i.label id then some i else labelled id is

-- instanceForRig: none is a listing that was not answered.
pub data Found : Type 0 where
  unanswered nothing : Found
  found : Instance → Found

unfoldable pub instance_for_rig : Option (List Instance) → Rig → Found
unfolding labelled
instance_for_rig none r = unanswered
instance_for_rig (some is) r = elim (labelled r.id is) [ none ↦ nothing | some i ↦ found i ]

-- holdsRig: none is an orchestrator without a provider. True is its refusal.
unfoldable pub wrong_provider : Option Text → Rig → Bool
wrong_provider none r = false
wrong_provider (some name) r =
    not (is_empty (provider_name r)) && not (text_eq name (provider_name r))
