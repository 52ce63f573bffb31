-- ===== src/Rank/Floors.antt =====
-- Which offers `classify` and Select of internal/rank/rank.go let through, and when nothing is selected.
use larri.Prelude.{
  ◌≤◌, ◌<◌, ◌*◌, ◌≡◌, ◌≢◌, ◌↔◌, ◌⊎◌, Bool, true, false, not, ◌&&◌, Option, none, some, List, All,
  All-map, arith, ltb, if◌then◌else◌,
}
use larri.Prelude.Text.{Text, bytes}
use larri.Prelude.Float.{Float}
use larri.Core.State.{permits}
use larri.Core.Criteria.{Criteria, Offer, vram_total_gb}
use larri.Prelude.Search.{equal_fold}
use larri.Rank.{
  Policy, Reason, eligible, interruptible_not_permitted, above_max_price, hardware_outside_criteria,
  passed, class_median_of, classify, classify_trust, classify_fit, is_outlier, cheaper, weigh,
  select, median_net_mbps, nought,
}
use larri.Prelude.Order.Sorting.{All-sort_stable}
use larri.Rank.Select.{All-weigh, settle-none}

module _ (Fl : Float) where
  -- The checks on the host: verification, reliability and distance from the class's median price.
  abbrev pub IsTrusted : Criteria Fl.F → Policy Fl.F → Option Fl.F → Offer Fl.F → Type 0
  IsTrusted c p med o =
      (c.certified_only ≡ true
        → (o.certified ≡ true) ⊎ (equal_fold o.verification (bytes "verified") ≡ true))
      × (c.allow_deverified ≡ false → equal_fold o.verification (bytes "deverified") ≡ false)
      × (Fl.lt (nought Fl) p.reliability_floor ≡ true
          → Fl.lt (nought Fl) o.reliability ≡ true
          → Fl.lt o.reliability p.reliability_floor ≡ false)
      × (is_outlier Fl med p o.price_hr ≡ false)

  -- The checks on the offer itself. A bound of 0 is no bound.
  abbrev pub IsWithin : Criteria Fl.F → Offer Fl.F → Type 0
  IsWithin c o =
      (permits c.interruptible o.interruptible ≡ true)
      × (Fl.lt (nought Fl) c.max_price_hr ≡ true → Fl.lt c.max_price_hr o.price_hr ≡ false)
      × (c.gpu_count ≤ o.gpu_count)
      × (0 < c.max_gpu_count → o.gpu_count ≤ c.max_gpu_count)
      × (c.vram_per_gpu_gb ≤ o.vram_per_gpu_gb)
      × (c.vram_total_gb ≤ o.vram_per_gpu_gb * o.gpu_count)

  abbrev pub Fits : Option (Offer Fl.F → Reason) → Offer Fl.F → Type 0
  Fits none o = Unit
  Fits (some fit) o = fit o ≡ eligible

  classify_trust_iff :
      (c : Criteria Fl.F) (p : Policy Fl.F) (med : Option Fl.F) (o : Offer Fl.F)
      → (classify_trust Fl c p med o ≡ eligible) ↔ IsTrusted c p med o
  unfolding classify_trust
  classify_trust_iff c p med o = ground arith

  passed_iff : (v : Reason) → (passed v ≡ true) ↔ (v ≡ eligible)
  unfolding passed
  passed_iff v = ground arith

  classify_fit_iff :
      (c : Criteria Fl.F) (fits : Option (Offer Fl.F → Reason)) (p : Policy Fl.F)
      (med : Option Fl.F) (o : Offer Fl.F)
      → (classify_fit Fl c fits p med o ≡ eligible) ↔ (Fits fits o × IsTrusted c p med o)
  unfolding classify_fit
  classify_fit_iff c none p med o = ground (arith, classify_trust_iff c p med o)
  classify_fit_iff c (some fit) p med o =
      ground (arith, passed_iff (fit o), classify_trust_iff c p med o)

  not_passed : (v : Reason) → passed v ≡ false → v ≡ eligible → ⊥
  unfolding passed
  not_passed v q e = ground arith

  -- The guards of `classify` on the offer itself, none of which answers.
  abbrev NoGuard : Bool → Bool → Bool → Bool → Bool → Bool → Type 0
  NoGuard g₁ g₂ g₃ g₄ g₅ g₆ =
      (g₁ ≡ false) × (g₂ ≡ false) × (g₃ ≡ false) × (g₄ ≡ false) × (g₅ ≡ false) × (g₆ ≡ false)

  guards_iff :
      (g₁ g₂ g₃ g₄ g₅ g₆ : Bool) (v : Reason)
      → ((if g₁
            then interruptible_not_permitted
            else if g₂
            then above_max_price
            else if g₃
            then hardware_outside_criteria
            else if g₄
            then hardware_outside_criteria
            else if g₅
            then hardware_outside_criteria
            else if g₆
            then hardware_outside_criteria
            else v)
          ≡ eligible)
        ↔ (NoGuard g₁ g₂ g₃ g₄ g₅ g₆ × (v ≡ eligible))
  guards_iff g₁ g₂ g₃ g₄ g₅ g₆ v = ground arith

  IsWithin-iff :
      (c : Criteria Fl.F) (o : Offer Fl.F)
      → NoGuard
          (not (permits c.interruptible o.interruptible))
          (Fl.lt (nought Fl) c.max_price_hr && Fl.lt c.max_price_hr o.price_hr)
          (ltb 0 c.gpu_count && ltb o.gpu_count c.gpu_count)
          (ltb 0 c.max_gpu_count && ltb c.max_gpu_count o.gpu_count)
          (ltb 0 c.vram_per_gpu_gb && ltb o.vram_per_gpu_gb c.vram_per_gpu_gb)
          (ltb 0 c.vram_total_gb && ltb (o.vram_per_gpu_gb * o.gpu_count) c.vram_total_gb)
        ↔ IsWithin c o
  IsWithin-iff c o = (
    λ h. (ground arith, ground arith, ground arith, ground arith, ground arith, ground arith),
    λ h. (ground arith, ground arith, ground arith, ground arith, ground arith, ground arith),
  )

  -- An offer is eligible exactly if it is within the criteria, fits, and its host is trusted.
  pub classify_iff :
      (c : Criteria Fl.F) (fits : Option (Offer Fl.F → Reason)) (p : Policy Fl.F)
      (medians : Text → Option Fl.F) (o : Offer Fl.F)
      → (classify Fl c fits p medians o ≡ eligible)
        ↔ (IsWithin c o × (Fits fits o × IsTrusted c p (medians o.gpu_model) o))
  unfolding classify vram_total_gb
  classify_iff c fits p medians o =
      let chain =
        guards_iff (not (permits c.interruptible o.interruptible))
          (Fl.lt (nought Fl) c.max_price_hr && Fl.lt c.max_price_hr o.price_hr)
          (ltb 0 c.gpu_count && ltb o.gpu_count c.gpu_count)
          (ltb 0 c.max_gpu_count && ltb c.max_gpu_count o.gpu_count)
          (ltb 0 c.vram_per_gpu_gb && ltb o.vram_per_gpu_gb c.vram_per_gpu_gb)
          (ltb 0 c.vram_total_gb && ltb (o.vram_per_gpu_gb * o.gpu_count) c.vram_total_gb)
          (classify_fit Fl c fits p (medians o.gpu_model) o) in
      let fit = classify_fit_iff c fits p (medians o.gpu_model) o in
      let within = IsWithin-iff c o in
      (λ h. let k = chain.0 h in (within.0 k.0, fit.0 k.1), λ h. chain.1 (within.1 h.0, fit.1 h.1))

  -- If Select selects nothing, no offer passes the checks.
  pub select-none :
      (offers : List (Offer Fl.F)) (c : Criteria Fl.F) (fits : Option (Offer Fl.F → Reason))
      (p : Policy Fl.F)
      → (select Fl offers c fits p).selected ≡ none
      → All
          (λ o. classify Fl c fits p (class_median_of Fl offers p.min_class_sample) o ≢ eligible)
          offers
  unfolding select
  select-none offers c fits p h =
      let medians = class_median_of Fl offers p.min_class_sample in
      All-map (λ o q e. not_passed _ q e) offers
        (All-weigh Fl c fits p medians (λ v o. passed v ≡ false) offers
          (All-sort_stable (cheaper Fl p (median_net_mbps Fl offers)) (λ d. passed d.reason ≡ false)
            (weigh Fl c fits p medians offers) (settle-none Fl _ h)))
