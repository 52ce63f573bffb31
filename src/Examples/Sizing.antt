-- ===== src/Examples/Sizing.antt =====
-- internal/sizing at a small model, on 24 GB.
use larri.Prelude.{ℕ, ◌*◌, ◌^◌, ◌≤◌, ◌<◌, ◌≡◌, refl, false, none, some, List, [], ◌∷◌}
use larri.Prelude.Text.{bytes}
use larri.Prelude.Float.{millionths}
use larri.Sizing.Facts.{Facts, validate}
use larri.Sizing.Plan.{
  Request, SizingPlan, Planned, planned, refused, plan_context, plan, plan_weighed, settle,
  total_bytes, capped_context, shard_vram,
}
use larri.Core.Criteria.{Offer}
use larri.Examples.{offer_at}
use larri.Sizing.Shortfall.{analyse}
use larri.Sizing.Plan.Laws.{Chosen, plan_context_lem}

abbrev facts_1 : Facts ℕ
facts_1 = record {
  params = 8000000;
  layers = 32;
  kv_heads = 8;
  head_dim = 128;
  hidden_size = 4096;
  max_context_len = 131072;
  attention_heads = 32;
  ref = [];
  revision = [];
  quant_method = [];
  active_params = 0;
}

abbrev request_1 : Request millionths
request_1 = record {
  quantization = bytes "fp16";
  context_len = 65536;
  facts = facts_1;
  concurrency = 1;
  safety_factor = 0;
  kv_elem_bytes = 0;
  available_vram_bytes = 24 * 2 ^ 30;
  gpu_count = 1;
  weight_bytes = 16000000000;
}

abbrev some_plan : SizingPlan millionths
some_plan = record {
  required_vram_bytes = 0;
  weights_bytes = 0;
  kv_cache_bytes = 0;
  fits_in_vram = false;
  tensor_parallel_size = 0;
  gpu_mem_utilization = none;
  context_len = 0;
  warnings = [];
}

abbrev plan_of : Planned (SizingPlan millionths) → SizingPlan millionths
plan_of (planned p) = p
plan_of (refused e) = some_plan

plan_1 : SizingPlan millionths
plan_1 = plan_of (plan millionths request_1)

plan_1_lem : plan millionths request_1 ≡ planned plan_1
unfolding plan_1 plan validate
plan_1_lem = refl

plan_context_lem_example :
    Chosen millionths request_1 plan_1.weights_bytes plan_1
    × (plan_1.context_len ≤ plan_context millionths request_1)
    × (0 < 131072 → plan_1.context_len ≤ 131072)
plan_context_lem_example = plan_context_lem millionths request_1 plan_1 plan_1_lem

abbrev request_2 : Request millionths
request_2 = record request_1 { weight_bytes = 0; quantization = bytes "odd" }

-- Two cards of 24 GB, and the same with a second card at twice the price.
abbrev two_offers : List (Offer ℕ)
two_offers = record (offer_at 400000 0 0) { gpu_count = 2 } ∷ offer_at 200000 0 0 ∷ []

-- Sixteen bits to the weight fit on the pair and not on the one.
pair_fits :
    (analyse millionths request_1 none two_offers).cheapest_fit
    ≡ some (record (offer_at 400000 0 0) { gpu_count = 2 })
unfolding analyse plan validate plan_weighed settle total_bytes capped_context shard_vram
pair_fits = refl
