-- ===== src/Sizing/Shortfall.antt =====
-- internal/sizing/shortfall.go: what is said when nothing on offer holds a model. float64 is the
-- parameter `Fl`. A flag is kept as what it sets. sort.Slice promises no order among offers of one
-- price; the stable one is taken.
pub mod Best
pub mod Within
use larri.Prelude.{
  ℕ, ◌==◌, Bool, true, false, not, ◌&&◌, ◌||◌, Option, none, some, List, [], ◌∷◌, ◌++◌, ltb, leb,
  length, if◌then◌else◌,
}
use larri.Prelude.Text.{Text, bytes}
use larri.Prelude.Float.{Float}
use larri.Prelude.Order.{sort_stable}
use larri.Core.Criteria.{Offer}
use larri.Sizing.Plan.{Request, SizingPlan, planned, refused, plan, shard_vram}

pub data Flag : Type 0 where
  quantization : Text → Flag
  context : ℕ → Flag

pub record Suggestion : Type 0 where
  pub flag : Flag
  pub required : ℕ
  pub fits : Bool

-- `best` is with the memory that the engine could use, the need there, and how many cards it uses.
pub record Shortfall (F : Type 0) : Type 0 where
  pub required : ℕ
  pub best : Option (Offer F)
  pub best_vram : ℕ
  pub best_need : ℕ
  pub best_shards : ℕ
  pub considered : ℕ
  pub multi_gpu : Bool
  pub cheapest_fit : Option (Offer F)
  pub suggestions : List Suggestion

-- Request.shards, with `Request.Shards` or nothing.
unfoldable pub shards_of : Option (ℕ → ℕ) → ℕ → ℕ
shards_of f gpus = if ltb gpus 1 then 1 else elim f [ none ↦ gpus | some shards ↦ shards gpus ]

module _ (Fl : Float) where
  -- A request of the fields that Analyse sets.
  abbrev pub asked : Request Fl → ℕ → ℕ → Request Fl
  asked r gpus weight = record {
    quantization = r.quantization;
    context_len = r.context_len;
    facts = r.facts;
    concurrency = r.concurrency;
    safety_factor = Fl.lit 0 1;
    kv_elem_bytes = 0;
    available_vram_bytes = 0;
    gpu_count = gpus;
    weight_bytes = weight;
  }

  -- The need of a request, or another figure where it has no plan.
  unfoldable pub need_or : ℕ → Request Fl → ℕ
  need_or d r = elim (plan Fl r) [ refused e ↦ d | planned p ↦ p.required_vram_bytes ]

  unfoldable pub need_on : Request Fl → Option (ℕ → ℕ) → ℕ → Offer Fl.F → ℕ
  unfolding need_or shards_of
  need_on r f required o = need_or required (asked r (shards_of f o.gpu_count) r.weight_bytes)

  unfoldable pub available_on : Option (ℕ → ℕ) → Offer Fl.F → ℕ
  unfolding shards_of
  available_on f o = shard_vram Fl o.vram_per_gpu_gb (shards_of f o.gpu_count)

  -- The test for the best offer so far.
  unfoldable pub is_better : Option (Offer Fl.F) → ℕ → ℕ → Bool
  is_better none best_vram avail = true
  is_better (some _) best_vram avail = ltb best_vram avail

  unfoldable pub first_of : Option (Offer Fl.F) → Bool → Offer Fl.F → Option (Offer Fl.F)
  first_of (some b) fits o = some b
  first_of none fits o = if fits then some o else none

  -- One turn of the loop of Analyse.
  unfoldable pub consider :
      Request Fl → Option (ℕ → ℕ) → Shortfall Fl.F → Offer Fl.F → Shortfall Fl.F
  unfolding need_on available_on is_better first_of
  consider r f s o =
      let avail = available_on f o in
      let need = need_on r f s.required o in
      let better = is_better s.best s.best_vram avail in
      record s {
        multi_gpu = ltb 1 o.gpu_count || s.multi_gpu;
        best = if better then some o else s.best;
        best_vram = if better then avail else s.best_vram;
        best_need = if better then need else s.best_need;
        best_shards = if better then shards_of f o.gpu_count else s.best_shards;
        cheapest_fit = first_of s.cheapest_fit (leb need avail) o;
      }

  unfoldable pub consider_all :
      Request Fl → Option (ℕ → ℕ) → Shortfall Fl.F → List (Offer Fl.F) → Shortfall Fl.F
  unfolding consider
  consider_all r f s [] = s
  consider_all r f s (o ∷ os) = consider_all r f (consider r f s o) os

  -- `target` of nothing is met by all.
  abbrev pub meets : ℕ → SizingPlan Fl → Bool
  meets target p = (target == 0) || leb p.required_vram_bytes target

  unfoldable pub suggest_from : (Flag → Request Fl) → ℕ → List Flag → List Suggestion
  suggest_from at target [] = []
  suggest_from at target (k ∷ ks) =
      let rest = suggest_from at target ks in
      elim (plan Fl (at k)) [
        | refused e ↦ rest
        | planned p ↦
            record { flag = k; required = p.required_vram_bytes; fits = meets target p }
            ∷ (if meets target p then [] else rest)
      ]

  -- The requests that the two loops of suggest plan for. A smaller quantization is estimated.
  unfoldable pub with_flag : Request Fl → Flag → Request Fl
  with_flag r (quantization q) = asked (record r { quantization = q }) r.gpu_count 0
  with_flag r (context c) = asked (record r { context_len = c }) r.gpu_count r.weight_bytes

  abbrev pub quantization_flags : List Flag
  quantization_flags =
      quantization (bytes "q8_0")
      ∷ quantization (bytes "q6_K")
      ∷ quantization (bytes "q5_K_M")
      ∷ quantization (bytes "q4_K_M")
      ∷ []

  -- The contexts that are shorter than what is asked for.
  unfoldable pub context_flags : ℕ → List ℕ → List Flag
  context_flags len [] = []
  context_flags len (c ∷ cs) =
      let rest = context_flags len cs in if leb len c then rest else context c ∷ rest

  unfoldable pub suggest : Request Fl → List Suggestion
  unfolding suggest_from with_flag context_flags
  suggest r =
      suggest_from (with_flag r) r.available_vram_bytes quantization_flags
      ++ suggest_from (with_flag r) r.available_vram_bytes
          (context_flags r.context_len (32768 ∷ 16384 ∷ 8192 ∷ 4096 ∷ []))

  abbrev pub by_price : Offer Fl.F → Offer Fl.F → Bool
  by_price a b = Fl.lt a.price_hr b.price_hr

  -- `s`, before the loop.
  unfoldable pub shortfall_of : Request Fl → ℕ → Shortfall Fl.F
  unfolding need_or
  shortfall_of r n = record {
    required = need_or 0 (asked r 0 r.weight_bytes);
    best = none;
    best_vram = 0;
    best_need = 0;
    best_shards = 0;
    considered = n;
    multi_gpu = false;
    cheapest_fit = none;
    suggestions = [];
  }

  unfoldable pub suggest_request : Request Fl → Option (ℕ → ℕ) → Shortfall Fl.F → Request Fl
  unfolding shards_of
  suggest_request r f s = record r {
    available_vram_bytes = s.best_vram;
    gpu_count = elim s.best [ none ↦ r.gpu_count | some o ↦ shards_of f o.gpu_count ];
  }

  unfoldable pub analyse : Request Fl → Option (ℕ → ℕ) → List (Offer Fl.F) → Shortfall Fl.F
  unfolding consider_all suggest shortfall_of suggest_request sort_stable
  analyse r f offers =
      let s = consider_all r f (shortfall_of r (length offers)) (sort_stable by_price offers) in
      record s { suggestions = suggest (suggest_request r f s) }
