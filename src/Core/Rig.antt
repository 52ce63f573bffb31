-- ===== src/Core/Rig.antt =====
-- internal/core/types.go: the instance at the provider and the rig, the root of persisted state.
-- The rig's criteria, sizing plan, host key and wiring are carried by no code modelled here and are
-- left out of the record. Times are nanoseconds, 0 for Go's zero time; prices are micro-dollars.
use larri.Prelude.{ℕ, Bool, not, Option, none, some, List, [], ltb, if◌then◌else◌}
use larri.Prelude.Text.{Text, is_empty}
use larri.Core.State.{LifecycleState, is_billable}
use larri.Core.Criteria.{Offer}
use larri.Core.Termination.{Termination}

pub record Instance : Type 0 where
  pub provider : Text
  pub instance_id : Text
  pub price_hr : ℕ
  pub storage_hr : ℕ
  pub running : Bool
  -- Labels[LabelKey], empty when there is none.
  pub label : Text

unfoldable pub rig_id : Instance → Text × Bool
rig_id i = (i.label, not (is_empty i.label))

pub record Transition : Type 0 where
  pub at : ℕ
  pub from : LifecycleState
  pub to : LifecycleState
  pub note : Text

pub record Rig : Type 0 where
  pub id : Text
  pub state : LifecycleState
  pub offer : Offer ℕ
  pub instance_of : Option Instance
  pub local_port : ℕ
  pub history : List Transition
  pub created_at : ℕ
  pub end : Option Termination

unfoldable pub rig_billable : Rig → Bool
rig_billable r = is_billable r.state

unfoldable pub provider_name : Rig → Text
provider_name r =
    if is_empty r.offer.provider
    then elim r.instance_of [ none ↦ [] | some i ↦ i.provider ]
    else r.offer.provider

unfoldable pub billed_price_hr : Rig → ℕ
billed_price_hr r = elim r.instance_of [
  | none ↦ r.offer.price_hr
  | some i ↦ if ltb 0 i.price_hr then i.price_hr else r.offer.price_hr
]
