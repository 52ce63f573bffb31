-- ===== src/Daemon/Market.antt =====
-- internal/daemon/up.go: which offers one bring-up leaves out of the search after hosts have failed.
-- The map of strikes is an association list; a map from keys to true is the list of its keys.
pub mod Narrowed
use larri.Prelude.{
  ℕ, ◌+◌, ◌==◌, Bool, true, false, not, ◌&&◌, ◌||◌, List, [], ◌∷◌, ◌++◌, leb, filter, if◌then◌else◌,
}
use larri.Prelude.Text.{Text, text_eq, bytes, is_empty, trim_space}
use larri.Prelude.Order.{sort_stable, text_lt}
use larri.Core.Criteria.{Offer}

-- `modelFailure`, with its strikes.
pub record Strike : Type 0 where
  pub model : Text
  pub op : Text
  pub count : ℕ

-- The Orchestrator's fields.
pub record Exclusions : Type 0 where
  pub machines : List Text
  pub listings : List Text
  pub failed_models : List Strike

abbrev pub model_strikes : ℕ
model_strikes = 2

unfoldable pub contains : List Text → Text → Bool
contains [] k = false
contains (x ∷ xs) k = text_eq x k || contains xs k

module _ {F : Type 0} where
  unfoldable pub offer_key : Offer F → Text
  offer_key o = if is_empty o.offer_id then [] else o.provider ++ (bytes ":o" ++ o.offer_id)

  unfoldable pub machine_key : Offer F → Text
  machine_key o = if is_empty o.machine_id then [] else o.provider ++ (bytes ":m" ++ o.machine_id)

  unfoldable pub exclude_failed : Exclusions → Offer F → Exclusions
  unfolding machine_key offer_key
  exclude_failed ex o =
      if not (is_empty (machine_key o))
      then record ex { machines = ex.machines ++ (machine_key o ∷ []) }
      else if not (is_empty (offer_key o))
      then record ex { listings = ex.listings ++ (offer_key o ∷ []) }
      else ex

unfoldable pub same_failure : Text → Text → Strike → Bool
same_failure model op s = text_eq s.model model && text_eq s.op op

-- `failedModels[k]++`.
unfoldable pub bump : Text → Text → List Strike → List Strike
unfolding same_failure
bump model op [] = record { model = model; op = op; count = 1 } ∷ []
bump model op (s ∷ ss) =
    let rest = bump model op ss in
    if same_failure model op s then record s { count = s.count + 1 } ∷ ss else s ∷ rest

unfoldable pub note_model_failure : {F : Type 0} → Exclusions → Offer F → Text → Exclusions
unfolding bump
note_model_failure ex o op =
    let m = trim_space o.gpu_model in
    if is_empty m then ex else record ex { failed_models = bump m op ex.failed_models }

-- The loop of retiredModels, with what is listed so far.
unfoldable pub retired_from : List Strike → List Text → List Text
unfolding contains
retired_from [] out = out
retired_from (s ∷ ss) out =
    retired_from ss (
      if leb model_strikes s.count && not (contains out s.model)
      then out ++ (s.model ∷ [])
      else out)

unfoldable pub retired_models : Exclusions → List Text
unfolding retired_from
retired_models ex = sort_stable text_lt (retired_from ex.failed_models [])

module _ {F : Type 0} where
  unfoldable pub without_offers : List (Offer F) → List Text → List (Offer F)
  without_offers offers keys = filter (λ o. not (contains keys (offer_key o))) offers

  unfoldable pub without_models : List (Offer F) → List Text → List (Offer F)
  without_models offers models = filter (λ o. not (contains models (trim_space o.gpu_model))) offers

  unfoldable pub without_machines : List (Offer F) → List Text → List (Offer F)
  without_machines offers machines =
      filter (λ o. is_empty (machine_key o) || not (contains machines (machine_key o))) offers

  unfoldable pub is_nothing : List (Offer F) → Bool
  is_nothing [] = true
  is_nothing (_ ∷ _) = false

  -- What `survey` does with the offers before it ranks them. Each of its three filters is skipped when
  -- its list is empty, and would keep everything then.
  unfoldable pub narrow : Exclusions → List (Offer F) → List (Offer F)
  unfolding without_offers without_models without_machines is_nothing
  narrow ex offers =
      let left = without_offers (without_machines offers ex.machines) ex.listings in
      let kept = without_models left (retired_models ex) in if is_nothing kept then left else kept
