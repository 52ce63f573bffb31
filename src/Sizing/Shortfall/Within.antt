-- ===== src/Sizing/Shortfall/Within.antt =====
-- What Analyse of internal/sizing/shortfall.go says of the offers and of what to change.
use larri.Prelude.{
  ℕ, ◌≡◌, ◌≤◌, ◌↔◌, Bool, true, false, ◌⊎◌, Option, none, some, List, [], ◌∷◌, leb, All, Among,
  if◌then◌else◌,
}
use larri.Prelude.Float.{Float}
use larri.Core.Criteria.{Offer}
use larri.Sizing.Plan.{Request, SizingPlan, planned, plan}
use larri.Sizing.Shortfall.Best.{IsBest}
use larri.Sizing.Shortfall.{
  Flag, Suggestion, Shortfall, need_on, available_on, with_flag, shortfall_of, suggest_request,
}

module _ (Fl : Float) where
  module _ (r : Request Fl) (f : Option (ℕ → ℕ)) where
    -- The need of the model where it is not known on which cards.
    abbrev pub least_need : ℕ
    least_need = (shortfall_of Fl r 0).required

    abbrev pub would_fit : ℕ → Offer Fl.F → Bool
    would_fit n o = leb (need_on Fl r f n o) (available_on Fl f o)

    first_fit : ℕ → List (Offer Fl.F) → Option (Offer Fl.F)
    first_fit n [] = none
    first_fit n (o ∷ os) = let rest = first_fit n os in if would_fit n o then some o else rest

    abbrev or_first : Option (Offer Fl.F) → Option (Offer Fl.F) → Option (Offer Fl.F)
    or_first (some b) q = some b
    or_first none q = q

    -- What is said of a cheapest offer that would fit.
    abbrev pub CheapestFit : ℕ → List (Offer Fl.F) → Option (Offer Fl.F) → Type 0
    CheapestFit n os none = All (λ o. would_fit n o ≡ false) os
    CheapestFit n os (some b) =
        Among b os
        × ((would_fit n b ≡ true)
            × All (λ o. would_fit n o ≡ true → Fl.lt o.price_hr b.price_hr ≡ false) os)

    module _ (lt-asym : (a b : Fl.F) → Fl.lt a b ≡ true → Fl.lt b a ≡ false) where
      abbrev NoDearer : Offer Fl.F → Offer Fl.F → Type 0
      NoDearer a b = Fl.lt b.price_hr a.price_hr ≡ false

  -- A suggestion says what the plan with its flag needs, and whether that is within the memory, or
  -- there is none to measure by.
  abbrev pub IsTrue : (Flag → Request Fl) → ℕ → Suggestion → Type 0
  IsTrue at target s =
      (p : SizingPlan Fl) × ((plan Fl (at s.flag) ≡ planned p)
        × ((s.required ≡ p.required_vram_bytes)
            × ((s.fits ≡ true) ↔ ((target ≡ 0) ⊎ (p.required_vram_bytes ≤ target)))))

  -- The report on a market.
  pub record IsReport (r : Request Fl) (f : Option (ℕ → ℕ)) (offers : List (Offer Fl.F))
      (s : Shortfall Fl.F) : Type 0 where
    pub cheapest : CheapestFit r f (least_need r f) offers s.cheapest_fit
    pub baseline : s.required ≡ least_need r f
    pub roomiest : IsBest Fl r f offers s s.best
    pub suggested : All (IsTrue (with_flag Fl (suggest_request Fl r f s)) s.best_vram) s.suggestions
