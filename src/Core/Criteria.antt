-- ===== src/Core/Criteria.antt =====
-- internal/core/types.go: what the operator asks for and what a provider sells.
-- `F` stands for float64: the ledger reads an offer whose figures are exact counts of a small unit
-- (F = ℕ), the ranking one over its parameter for floating-point numbers.
use larri.Prelude.{ℕ, ◌*◌, ◌&&◌, Bool, List, ltb}
use larri.Prelude.Text.{Text}
use larri.Core.State.{Tristate}

pub record Criteria (F : Type 0) : Type 0 where
  pub gpu_model : List Text
  pub gpu_count : ℕ
  pub vram_per_gpu_gb : ℕ
  pub vram_total_gb : ℕ
  pub max_gpu_count : ℕ
  pub allow_low_stock : Bool
  pub cpu_cores : ℕ
  pub ram_gb : ℕ
  pub disk_gb : ℕ
  pub regions : List Text
  pub block_regions : List Text
  pub max_price_hr : F
  pub interruptible : Tristate
  pub min_reliability : F
  pub providers : List Text
  pub certified_only : Bool
  pub allow_deverified : Bool
  pub min_net_mbps : F

pub record Offer (F : Type 0) : Type 0 where
  pub provider : Text
  pub offer_id : Text
  pub gpu_model : Text
  pub gpu_count : ℕ
  pub vram_per_gpu_gb : ℕ
  pub cpu_cores : ℕ
  pub ram_gb : ℕ
  pub disk_gb : ℕ
  pub region : Text
  pub price_hr : F
  pub interruptible : Bool
  pub reliability : F
  pub net_down_mbps : F
  pub cuda_version : Text
  pub compute_capability : ℕ
  pub driver_version : Text
  pub certified : Bool
  pub verification : Text
  pub machine_id : Text
  pub low_stock : Bool
  pub gpu_vendor : Text

unfoldable pub vram_total_gb : {F : Type 0} → Offer F → ℕ
vram_total_gb o = o.vram_per_gpu_gb * o.gpu_count

-- `Validate`: the contradiction that is refused before anything is searched.
unfoldable pub criteria_contradict : {F : Type 0} → Criteria F → Bool
criteria_contradict c =
    ltb 0 c.gpu_count && ltb 0 c.max_gpu_count && ltb c.max_gpu_count c.gpu_count
