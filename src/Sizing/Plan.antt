-- ===== src/Sizing/Plan.antt =====
-- internal/sizing/sizing.go: the VRAM estimate and the context length that it settles on.
-- uint64 arithmetic wraps (`u64`); float64 is the parameter `A`.
pub mod Reduce
pub mod Laws
pub mod Room
use larri.Prelude.{
  ℕ, zero, suc, ◌+◌, ◌*◌, ◌/◌, ◌%◌, ◌^◌, Bool, true, false, ◌&&◌, Option, none, some, List, [], ◌∷◌,
  ◌++◌, ltb, leb, ◌==◌, if◌then◌else◌,
}
use larri.Prelude.Text.{Text}
use larri.Prelude.Float.{Float}
use larri.Sizing.Facts.{Facts, PlanError, params_unknown, unknown_quantization, validate}
use larri.Sizing.Quant.{bits_per_weight}

abbrev pub u64 : ℕ → ℕ
u64 n = n % 2 ^ 64

pub data Warning : Type 0 where
  above_maximum : ℕ → ℕ → Warning
  context_reduced : ℕ → ℕ → Warning
  single_sequence : Warning

module _ (A : Float) where
  -- Of the model spec a plan reads the quantization and the context length. `shards` is read by the
  -- shortfall report alone and left out.
  pub record Request : Type 0 where
    pub quantization : Text
    pub context_len : ℕ
    pub facts : Facts A.F
    pub concurrency : ℕ
    pub safety_factor : A.F
    pub kv_elem_bytes : ℕ
    pub available_vram_bytes : ℕ
    pub gpu_count : ℕ
    pub weight_bytes : ℕ

  pub record SizingPlan : Type 0 where
    pub required_vram_bytes : ℕ
    pub weights_bytes : ℕ
    pub kv_cache_bytes : ℕ
    pub fits_in_vram : Bool
    pub tensor_parallel_size : ℕ
    -- none where Go leaves 0
    pub gpu_mem_utilization : Option A.F
    pub context_len : ℕ
    pub warnings : List Warning

  unfoldable pub kv_bytes : Facts A.F → ℕ → ℕ → ℕ → ℕ
  kv_bytes f ctx_len concurrency elem =
      u64 (2 * f.layers * f.kv_heads * f.head_dim * ctx_len * concurrency * elem)

  unfoldable pub activation_bytes : Facts A.F → ℕ → ℕ → ℕ
  activation_bytes f ctx_len batch = A.to_u64 (
      A.mul
        (A.mul (A.mul (A.mul (A.of_nat f.hidden_size) (A.of_nat ctx_len)) (A.of_nat batch))
          (A.lit 2 1))
        (A.lit 2 1))

  unfoldable pub overhead_bytes : ℕ → ℕ → ℕ → ℕ
  overhead_bytes weights kv gpus =
      let floor = A.mul (A.lit (2 ^ 30) 1) (A.of_nat (if ltb gpus 1 then 1 else gpus)) in
      let proportional = A.mul (A.of_nat (u64 (weights + kv))) (A.lit 8 100) in
      if A.lt proportional floor then A.to_u64 floor else A.to_u64 proportional

  -- `uint64(float64(weights+kv+act+over) * safety)`, what `fit` and reduceContext compare.
  unfoldable pub total_bytes : Facts A.F → ℕ → ℕ → ℕ → A.F → ℕ → ℕ → ℕ
  unfolding kv_bytes activation_bytes overhead_bytes
  total_bytes f weights conc kv_elem safety gpus ctx_len =
      let kv = kv_bytes f ctx_len conc kv_elem in
      let act = activation_bytes f ctx_len conc in
      let over = overhead_bytes weights kv gpus in
      A.to_u64 (A.mul (A.of_nat (u64 (weights + kv + act + over))) safety)

  unfoldable pub clamp : A.F → A.F → A.F → A.F
  clamp v lo hi = if A.lt v lo then lo else if A.lt hi v then hi else v

-- The loop of reduceContext, on fuel, over the comparison that it makes at each length.
unfoldable pub reduce_loop : (ℕ → Bool) → ℕ → ℕ → Option ℕ
reduce_loop fits zero c = none
reduce_loop fits (suc fuel) c =
    let rest = reduce_loop fits fuel (c / 2) in
    if ltb c 512 then none else if fits c then some c else rest

unfoldable pub reduce_context : (ℕ → Bool) → ℕ → Option ℕ
unfolding reduce_loop
reduce_context fits from = reduce_loop fits from (from / 2)

pub data Planned (P : Type 0) : Type 0 where
  planned : P → Planned P
  refused : PlanError → Planned P

module _ (A : Float) (req : Request A) where
  -- The defaults at the top of Plan.
  unfoldable pub plan_concurrency : ℕ
  plan_concurrency = if req.concurrency == 0 then 1 else req.concurrency

  unfoldable pub plan_safety : A.F
  plan_safety = if A.le req.safety_factor (A.lit 0 1) then A.lit 110 100 else req.safety_factor

  unfoldable pub plan_kv_elem : ℕ
  plan_kv_elem = if req.kv_elem_bytes == 0 then 2 else req.kv_elem_bytes

  unfoldable pub plan_gpus : ℕ
  plan_gpus = if req.gpu_count == 0 then 1 else req.gpu_count

  unfoldable pub plan_context : ℕ
  plan_context = if req.context_len == 0 then 4096 else req.context_len

  -- The context asked for, brought down to the model's maximum.
  unfoldable pub capped_context : ℕ
  unfolding plan_context
  capped_context =
      if ltb 0 req.facts.max_context_len && ltb req.facts.max_context_len plan_context
      then req.facts.max_context_len
      else plan_context

  unfoldable pub cap_warnings : List Warning
  unfolding plan_context
  cap_warnings =
      if ltb 0 req.facts.max_context_len && ltb req.facts.max_context_len plan_context
      then above_maximum plan_context req.facts.max_context_len ∷ []
      else []

  -- `fit`
  unfoldable pub fit : ℕ → ℕ → ℕ
  unfolding plan_concurrency plan_safety plan_kv_elem plan_gpus
  fit weights c =
      total_bytes A req.facts weights plan_concurrency plan_kv_elem plan_safety plan_gpus c

  -- The comparison in reduceContext, which takes the request's own card count.
  unfoldable pub fits_reduced : ℕ → ℕ → Bool
  unfolding plan_concurrency plan_safety plan_kv_elem
  fits_reduced weights c =
      leb
        (total_bytes A req.facts weights plan_concurrency plan_kv_elem plan_safety req.gpu_count c)
        req.available_vram_bytes

  -- What Plan does once the context length is settled.
  unfoldable pub settle : ℕ → ℕ → List Warning → SizingPlan A
  unfolding fit plan_gpus plan_concurrency plan_kv_elem kv_bytes clamp
  settle weights ctx_len warnings =
      let required = fit weights ctx_len in
      let avail = req.available_vram_bytes in
      let fits = if ltb 0 avail then leb required avail else true in
      record {
        required_vram_bytes = required;
        weights_bytes = weights;
        kv_cache_bytes = kv_bytes A req.facts ctx_len plan_concurrency plan_kv_elem;
        fits_in_vram = fits;
        tensor_parallel_size = plan_gpus;
        gpu_mem_utilization =
            if ltb 0 avail
            then (if fits
                then some (
                    clamp A (A.div (A.of_nat required) (A.of_nat avail)) (A.lit 10 100)
                      (A.lit 95 100))
                else none)
            else some (A.lit 90 100);
        context_len = ctx_len;
        warnings = if plan_concurrency == 1 then warnings ++ (single_sequence ∷ []) else warnings;
      }

  unfoldable pub plan_weighed : ℕ → SizingPlan A
  plan_weighed weights =
      let ctx_len = capped_context in
      if ltb 0 req.available_vram_bytes && ltb req.available_vram_bytes (fit weights ctx_len)
      then elim (reduce_context (fits_reduced weights) ctx_len) [
        | none ↦ settle weights ctx_len cap_warnings
        | some c ↦ settle weights c (cap_warnings ++ (context_reduced ctx_len c ∷ []))
      ]
      else settle weights ctx_len cap_warnings

  -- The estimate for a quantization of `bits` a weight.
  unfoldable pub estimated_weights : A.F → ℕ
  estimated_weights bits =
      A.to_u64 (A.div (A.mul (A.mul req.facts.params (A.lit 1000000000 1)) bits) (A.lit 8 1))

  unfoldable pub plan : Planned (SizingPlan A)
  plan = elim (validate req.facts) [
    | some e ↦ refused e
    | none ↦
        if ltb 0 req.weight_bytes
        then planned (plan_weighed req.weight_bytes)
        else if A.le req.facts.params (A.lit 0 1)
        then refused params_unknown
        else elim (bits_per_weight A req.quantization) [
          | none ↦ refused unknown_quantization
          -- an estimate of nothing is taken as it is
          | some bits ↦ planned (plan_weighed (estimated_weights bits))
        ]
  ]

-- UsableVRAM and ShardVRAM: 95 hundredths of the cards that the engine reaches.
unfoldable pub usable_vram : Float → ℕ → ℕ
usable_vram A total = A.to_u64 (A.mul (A.of_nat total) (A.lit 95 100))

unfoldable pub shard_vram : Float → ℕ → ℕ → ℕ
unfolding usable_vram
shard_vram A vram_per_gpu_gb shards =
    usable_vram A (u64 (vram_per_gpu_gb * (if ltb shards 1 then 1 else shards) * 2 ^ 30))
