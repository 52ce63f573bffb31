-- ===== src/Core/Termination.antt =====
-- internal/core/termination.go: who ended a rig, why, and on what evidence.
-- An amount of money is an exact count of (micro-dollars an hour) × nanoseconds; see State.Cost.
use larri.Prelude.{ℕ, Bool, true, false, Option, none, some, List, [], ◌∷◌, if◌then◌else◌}
use larri.Prelude.Text.{Text, text_eq, bytes}
use larri.Prelude.Int.{ℤ}

pub data Actor : Type 0 where
  operator policy provider fault : Actor

pub data ReasonCode : Type 0 where
  operator_request panic_sweep idle_timeout budget_ceiling preempted host_failure : ReasonCode
  provision_deadline bootstrap_failed orphan_sweep instance_gone : ReasonCode

pub record CostSummary : Type 0 where
  pub total_usd : ℕ
  pub compute_usd : ℕ
  pub storage_usd : ℕ
  pub boot_usd : ℕ
  pub ran : ℤ
  pub price_hr : ℕ
  pub reached_ready : Bool

pub record Termination : Type 0 where
  pub actor : Actor
  pub code : ReasonCode
  pub at : ℕ
  pub summary : Text
  pub evidence : List (Text × Text)
  pub cost : CostSummary

-- A read of `map[string]string`: a missing key is the empty string.
unfoldable pub evidence_at : Text → List (Text × Text) → Text
evidence_at k [] = []
evidence_at k ((j, v) ∷ m) = if text_eq j k then v else evidence_at k m

-- The constant EvidenceNothingCreated.
abbrev pub nothing_created : Text
nothing_created = bytes "nothing_created"

unfoldable pub is_automatic : Option Termination → Bool
is_automatic none = false
is_automatic (some t) = elim t.actor [ policy ↦ true | fault ↦ true | _ ↦ false ]
