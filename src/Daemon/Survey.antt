-- ===== src/Daemon/Survey.antt =====
-- internal/daemon/up.go: `survey`, which sizes the model and ranks the market. float64 is the parameter `Fl`. What the
-- runtime, the resolver and the provider answer is a record. Progress reports are left out, and an
-- error stands for its text.
pub mod Chosen
pub mod Fitting
use larri.Prelude.{
  ℕ, ◌+◌, ◌*◌, ◌==◌, Bool, true, false, not, ◌&&◌, ◌||◌, Option, none, some, List, [], ◌∷◌, ltb,
  leb, if◌then◌else◌,
}
use larri.Prelude.Text.{Text, text_eq, bytes, is_empty, trim_space, to_lower}
use larri.Prelude.Float.{Float}
use larri.Core.Criteria.{Criteria, Offer, criteria_contradict}
use larri.Sizing.Facts.{Facts, PlanError}
use larri.Sizing.Shards.{shards}
use larri.Sizing.Plan.{Request, SizingPlan, Planned, planned, refused, plan, shard_vram}
use larri.Sizing.Variants.{normalise_quant_method}
use larri.Runtime.{Requirements, satisfies_vendor, satisfies, satisfies_cuda}
use larri.Daemon.Disk.{disk_need_gb, size_disk, cold_start_bytes}
use larri.Rank.{
  Policy, Reason, eligible, engine_unsupported, network_below_floor, insufficient_vram, Candidate,
  Result, select,
}
use larri.Daemon.World.{ErrorClass, criteria_unsatisfiable}
use larri.Daemon.Market.{Exclusions, narrow, is_nothing}

-- core.ModelSpec: what sizing and the search read of it.
pub record ModelSpec : Type 0 where
  pub ref : Text
  pub revision : Text
  pub quantization : Text
  pub context_len : ℕ

-- An answer from outside, or its error's class.
pub data Answer (A : Type 0) : Type 0 where
  answered : A → Answer A
  failed_with : ErrorClass → Answer A

pub data SurveyError (F : Type 0) : Type 0 where
  contradiction quant_unsupported : SurveyError F
  outside : ErrorClass → SurveyError F
  unplanned : PlanError → SurveyError F
  -- the need
  disk_too_small : ℕ → SurveyError F
  -- nothing is selected: whether the provider refused, and the offers that the two hints name
  nothing_fits : Bool → Option (Offer F) → Option (Offer F) → SurveyError F

module _ (Fl : Float) where
  -- What is outside: the runtime (its weights, requirements, quantizations and the default one), the
  -- resolver, the provider's market at some criteria, and strconv.ParseFloat.
  pub record Outside : Type 0 where
    -- none: the runtime is no WeightResolver. An answer is the quantization that the file carries.
    pub weights : Option (Answer Text)
    pub default_quantization : Text
    pub weight_bytes : ℕ
    pub facts : Answer (Facts Fl.F)
    pub market : Criteria Fl.F → Answer (List (Offer Fl.F))
    pub reports_stock : Bool
    pub requires : Requirements
    -- none: the runtime is no QuantAccepter
    pub accepts_quant : Option (Text → Bool)
    pub parse_float : Text → Option Fl.F

  pub record UpRequest : Type 0 where
    pub criteria : Criteria Fl.F
    pub model : ModelSpec
    pub disk_gb : ℕ

  pub record Survey : Type 0 where
    pub placed : SizingPlan Fl
    pub selected : Candidate Fl.F
    pub selection : Result Fl.F
    pub disk_gb : ℕ
    pub model : ModelSpec

  pub data Surveyed : Type 0 where
    surveyed : Survey → Surveyed
    not_surveyed : SurveyError Fl.F → Surveyed

  -- resolveWeights: the model with its quantization settled.
  unfoldable pub resolve_weights : Outside → ModelSpec → Answer ModelSpec
  resolve_weights w m =
      let or_default : ModelSpec → ModelSpec = λ s.
        if is_empty s.quantization then record s { quantization = w.default_quantization } else s in
      elim w.weights [
        | none ↦ answered (or_default m)
        | some (failed_with e) ↦ failed_with e
        | some (answered q) ↦
            answered (or_default (if is_empty q then m else record m { quantization = q }))
      ]

  -- checkQuantSupported
  unfoldable pub quant_supported : Outside → Facts Fl.F → Bool
  unfolding normalise_quant_method
  quant_supported w f =
      let scheme = normalise_quant_method f.quant_method in
      if is_empty scheme
      then true
      else elim w.accepts_quant [ none ↦ true | some accepts ↦ accepts scheme ]

  -- parseCUDA
  unfoldable pub parse_cuda : Outside → Text → Fl.F
  unfolding trim_space
  parse_cuda w s = elim (w.parse_float (trim_space s)) [ none ↦ Fl.lit 0 1 | some f ↦ f ]

  -- `base`: the request that every plan of a survey is made from.
  unfoldable pub base_request : Outside → ModelSpec → Facts Fl.F → Request Fl
  base_request w m f = record {
    quantization = m.quantization;
    context_len = m.context_len;
    facts = f;
    concurrency = 0;
    safety_factor = Fl.lit 0 1;
    kv_elem_bytes = 0;
    available_vram_bytes = 0;
    gpu_count = 0;
    weight_bytes = w.weight_bytes;
  }

  -- The end of `fits`: the memory that the engine can use of the cards that it reaches.
  unfoldable pub fits_vram : Request Fl → Requirements → Offer Fl.F → Reason
  fits_vram base r o =
      let n = shards base.facts o.gpu_count r.tensor_parallel in
      elim (plan Fl (record base { gpu_count = n })) [
        | refused e ↦ insufficient_vram
        | planned need ↦
            if leb need.required_vram_bytes (shard_vram Fl o.vram_per_gpu_gb n)
            then eligible
            else insufficient_vram
      ]

  -- `fits`
  unfoldable pub fits_of : Outside → Criteria Fl.F → Request Fl → Offer Fl.F → Reason
  unfolding satisfies_vendor satisfies satisfies_cuda parse_cuda fits_vram
  fits_of w c base o =
      let r = w.requires in
      if not (satisfies_vendor r o.gpu_vendor)
      then engine_unsupported
      else if not (satisfies r o.compute_capability)
      then engine_unsupported
      else if not (satisfies_cuda Fl r (parse_cuda w o.cuda_version))
      then engine_unsupported
      else if Fl.lt (Fl.lit 0 1) c.min_net_mbps
          && Fl.lt (Fl.lit 0 1) o.net_down_mbps
          && Fl.lt o.net_down_mbps c.min_net_mbps
      then network_below_floor
      else fits_vram base r o

  -- moreCardsWouldFit: the offer that it names.
  unfoldable pub more_cards_would_fit :
      Outside → Criteria Fl.F → (Offer Fl.F → Reason) → Policy Fl.F → Option (Offer Fl.F)
  more_cards_would_fit w c fits p =
      let lifted = record c { max_gpu_count = 0 } in
      if c.max_gpu_count == 0 then none else elim (w.market lifted) [
        | failed_with e ↦ none
        | answered os ↦ elim (select Fl os lifted (some fits) p).selected [
          | none ↦ none
          | some s ↦ if leb s.offer.gpu_count c.max_gpu_count then none else some s.offer
        ]
      ]

  -- lowStockWouldFit: the offer that it names.
  unfoldable pub low_stock_would_fit :
      Outside → Criteria Fl.F → (Offer Fl.F → Reason) → Policy Fl.F → Option (Offer Fl.F)
  low_stock_would_fit w c fits p =
      let lifted = record c { allow_low_stock = true } in
      if c.allow_low_stock || not w.reports_stock then none else elim (w.market lifted) [
        | failed_with e ↦ none
        | answered os ↦ elim (select Fl os lifted (some fits) p).selected [
          | none ↦ none
          | some s ↦ if s.offer.low_stock then some s.offer else none
        ]
      ]

  -- The plan on the cards of the offer that is selected.
  unfoldable pub placed_request : Outside → Request Fl → Offer Fl.F → Request Fl
  placed_request w base o =
      let n = shards base.facts o.gpu_count w.requires.tensor_parallel in
      record base { gpu_count = n; available_vram_bytes = shard_vram Fl o.vram_per_gpu_gb n }

  unfoldable pub place :
      Outside → ModelSpec → Request Fl → ℕ → Result Fl.F → Candidate Fl.F → Surveyed
  unfolding placed_request
  place w m base disk sel s = elim (plan Fl (placed_request w base s.offer)) [
    | refused e ↦ not_surveyed (unplanned e)
    | planned p ↦
        surveyed (record { placed = p; selected = s; selection = sel; disk_gb = disk; model = m })
  ]

  -- From the offers that the search gave, and whether the provider refused the criteria.
  unfoldable pub survey_ranked :
      Outside
      → Policy Fl.F
      → Exclusions
      → ModelSpec
      → Request Fl
      → Option ℕ
      → SizingPlan Fl
      → Criteria Fl.F
      → Bool
      → List (Offer Fl.F)
      → Surveyed
  unfolding place fits_of quant_supported more_cards_would_fit low_stock_would_fit narrow
  survey_ranked w policy ex m base sized p c is_refused offers =
      let policy' = record policy { cold_start_bytes = cold_start_bytes Fl p } in
      let fits : Offer Fl.F → Reason = fits_of w c base in
      if not (quant_supported w base.facts)
      then not_surveyed quant_unsupported
      else (let sel = select Fl (narrow ex offers) c (some fits) policy' in
          elim sel.selected [
            | none ↦ not_surveyed (
                nothing_fits is_refused (more_cards_would_fit w c fits policy')
                  (low_stock_would_fit w c fits policy'))
            | some s ↦ elim sized [
              | none ↦ not_surveyed (disk_too_small (disk_need_gb Fl p))
              | some disk ↦ place w m base disk sel s
            ]
          ])

  unfoldable pub is_unsatisfiable : ErrorClass → Bool
  is_unsatisfiable criteria_unsatisfiable = true
  is_unsatisfiable _ = false

  -- The larger of the two figures that a request can carry.
  unfoldable pub asked_disk : UpRequest → ℕ
  asked_disk req =
      if ltb req.disk_gb req.criteria.disk_gb then req.criteria.disk_gb else req.disk_gb

  -- From the search's answer. A provider that refuses the criteria has an empty market.
  unfoldable pub survey_answered :
      Outside
      → Policy Fl.F
      → Exclusions
      → ModelSpec
      → Request Fl
      → Option ℕ
      → SizingPlan Fl
      → Criteria Fl.F
      → Answer (List (Offer Fl.F))
      → Surveyed
  unfolding survey_ranked is_unsatisfiable
  survey_answered w policy ex m base sized p c (answered os) =
      survey_ranked w policy ex m base sized p c false os
  survey_answered w policy ex m base sized p c (failed_with e) =
      if is_unsatisfiable e
      then survey_ranked w policy ex m base sized p c true []
      else not_surveyed (outside e)

  -- Where the disk is refused, the market is searched at the one that is needed.
  unfoldable pub searched_disk : ℕ → Option ℕ → ℕ
  searched_disk need none = need
  searched_disk need (some d) = d

  -- From the plan that is made before any card is known.
  unfoldable pub survey_sized :
      Outside
      → Policy Fl.F
      → Exclusions
      → UpRequest
      → ModelSpec
      → Request Fl
      → SizingPlan Fl
      → Surveyed
  unfolding survey_answered size_disk asked_disk searched_disk
  survey_sized w policy ex req m base p =
      let sized = size_disk Fl (asked_disk req) p in
      let c = record (req.criteria) { disk_gb = searched_disk (disk_need_gb Fl p) sized } in
      survey_answered w policy ex m base sized p c (w.market c)

  unfoldable pub survey : Outside → Policy Fl.F → Exclusions → UpRequest → Surveyed
  unfolding survey_sized resolve_weights base_request criteria_contradict
  survey w policy ex req =
      if criteria_contradict req.criteria
      then not_surveyed contradiction
      else elim (resolve_weights w req.model) [
        | failed_with e ↦ not_surveyed (outside e)
        | answered m ↦ elim w.facts [
          | failed_with e ↦ not_surveyed (outside e)
          | answered f ↦ elim (plan Fl (base_request w m f)) [
            | refused e ↦ not_surveyed (unplanned e)
            | planned p ↦ survey_sized w policy ex req m (base_request w m f) p
          ]
        ]
      ]
