-- ===== src/Daemon/Survey/Fitting.antt =====
-- The plan that a survey of internal/daemon/up.go makes for the cards of the offer that it selects.
use larri.Prelude.{◌≤◌, ◌≡◌, refl, true, arith, leb, if◌then◌else◌}
use larri.Prelude.Float.{Float}
use larri.Core.Criteria.{Criteria, Offer}
use larri.Sizing.Shards.{shards}
use larri.Sizing.Facts.{Facts}
use larri.Sizing.Plan.{Request, SizingPlan, Planned, planned, refused, plan, shard_vram}
use larri.Sizing.Plan.Room.{HasRoom, plan-HasRoom}
use larri.Runtime.{Requirements, satisfies_vendor, satisfies, satisfies_cuda}
use larri.Rank.{Policy, Reason, eligible, insufficient_vram}
use larri.Daemon.Market.{Exclusions}
use larri.Daemon.Survey.{
  answered, Outside, UpRequest, Survey, surveyed, survey, placed_request, base_request, fits_of,
  fits_vram, parse_cuda,
}
use larri.Daemon.Survey.Chosen.{survey-Checked}

module _ (Fl : Float) where
  -- The plan that the fit is measured by.
  abbrev pub IsNeeded : Request Fl → Requirements → Offer Fl.F → SizingPlan Fl → Type 0
  IsNeeded base r o need =
      let n = shards base.facts o.gpu_count r.tensor_parallel in
      (plan Fl (record base { gpu_count = n }) ≡ planned need)
      × (need.required_vram_bytes ≤ shard_vram Fl o.vram_per_gpu_gb n)

  measured :
      (base : Request Fl) (r : Requirements) (o : Offer Fl.F) (q : Planned (SizingPlan Fl))
      → (let n = shards base.facts o.gpu_count r.tensor_parallel in
          plan Fl (record base { gpu_count = n }) ≡ q)
      → elim q as (λ _. Reason) [
        | refused e ↦ insufficient_vram
        | planned need ↦
            if leb need.required_vram_bytes
              (shard_vram Fl o.vram_per_gpu_gb (shards base.facts o.gpu_count r.tensor_parallel))
            then eligible
            else insufficient_vram
      ]
        ≡ eligible
      → (need : SizingPlan Fl) × IsNeeded base r o need
  measured base r o (refused e) k h = cc
  measured base r o (planned need) k h = (need, (k, ground arith))

  fits_vram-IsNeeded :
      (base : Request Fl) (r : Requirements) (o : Offer Fl.F)
      → fits_vram Fl base r o ≡ eligible
      → (need : SizingPlan Fl) × IsNeeded base r o need
  unfolding fits_vram
  fits_vram-IsNeeded base r o h = measured base r o _ refl h

  fits_of-fits_vram :
      (w : Outside Fl) (c : Criteria Fl.F) (base : Request Fl) (o : Offer Fl.F)
      → fits_of Fl w c base o ≡ eligible
      → (satisfies_vendor w.requires o.gpu_vendor ≡ true)
        × ((satisfies w.requires o.compute_capability ≡ true)
            × ((satisfies_cuda Fl w.requires (parse_cuda Fl w o.cuda_version) ≡ true)
                × (fits_vram Fl base w.requires o ≡ eligible)))
  unfolding fits_of
  fits_of-fits_vram w c base o h = (ground arith, (ground arith, (ground arith, ground arith)))

  -- If a survey succeeds, the engine runs on the offer's cards as far as they are described, and its
  -- plan is the one for as many of them as the engine reaches: it fits into their usable memory, and
  -- its context length is not one that was cut down to make it fit.
  pub survey-fits :
      (w : Outside Fl) (policy : Policy Fl.F) (ex : Exclusions) (req : UpRequest Fl) (s : Survey Fl)
      → survey Fl w policy ex req ≡ surveyed s
      → (f : Facts Fl.F) × (need : SizingPlan Fl) × (let o = s.selected.offer in
          let base = base_request Fl w s.model f in
          let n = shards f o.gpu_count w.requires.tensor_parallel in
          (w.facts ≡ answered f)
          × (satisfies_vendor w.requires o.gpu_vendor ≡ true)
          × ((satisfies w.requires o.compute_capability ≡ true)
              × ((satisfies_cuda Fl w.requires (parse_cuda Fl w o.cuda_version) ≡ true)
                  × (IsNeeded base w.requires o need
                      × HasRoom Fl (record base { gpu_count = n }) need s.placed))))
  unfolding placed_request base_request
  survey-fits w policy ex req s h =
      let k = survey-Checked Fl w policy ex req s h in
      let o = s.selected.offer in
      let base = base_request Fl w s.model k.facts in
      let n = shards k.facts o.gpu_count w.requires.tensor_parallel in
      let runs = fits_of-fits_vram w _ base o k.fitting in
      let (need, is_needed) = fits_vram-IsNeeded base w.requires o runs.1.1.1 in
      let room =
        plan-HasRoom Fl (record base { gpu_count = n }) (shard_vram Fl o.vram_per_gpu_gb n) need
          s.placed refl is_needed.0 is_needed.1 k.placed_lem in
      (k.facts, need, (k.facts_lem, runs.0, (runs.1.0, (runs.1.1.0, (is_needed, room)))))
