-- ===== src/Rank.antt =====
-- internal/rank/rank.go: which offer to rent. float64 is the parameter `Fl`; the texts that explain a
-- verdict are left out.
pub mod Select
pub mod Floors
use larri.Prelude.{
  ℕ, ◌/◌, ◌%◌, ◌-◌, ◌==◌, Bool, true, false, not, ◌&&◌, ◌||◌, Option, none, some, List, [], ◌∷◌,
  ltb, leb, length, get_or, if◌then◌else◌,
}
use larri.Prelude.Text.{Text, text_eq, bytes, to_lower}
use larri.Prelude.Search.{equal_fold}
use larri.Prelude.Float.{Float}
use larri.Prelude.Order.{sort_stable, text_lt}
use larri.Core.State.{permits}
use larri.Core.Criteria.{Criteria, Offer, vram_total_gb}

pub record Policy (F : Type 0) : Type 0 where
  pub reliability_floor : F
  pub outlier_factor : F
  pub min_class_sample : ℕ
  pub cold_start_bytes : ℕ
  pub session_hours : F

pub data Reason : Type 0 where
  eligible insufficient_vram engine_unsupported network_below_floor reliability_below_floor : Reason
  price_outlier verification_withdrawn interruptible_not_permitted above_max_price : Reason
  hardware_outside_criteria region_blocked costlier_than_selection : Reason

-- `r == ReasonEligible`
unfoldable pub passed : Reason → Bool
passed eligible = true
passed _ = false

pub record Candidate (F : Type 0) : Type 0 where
  pub offer : Offer F
  pub reason : Reason
  pub class_median : F

unfoldable pub is_eligible : {F : Type 0} → Candidate F → Bool
is_eligible c = elim c.reason [ eligible ↦ true | costlier_than_selection ↦ true | _ ↦ false ]

pub record Result (F : Type 0) : Type 0 where
  pub selected : Option (Candidate F)
  pub candidates : List (Candidate F)

module _ (Fl : Float) where
  abbrev pub nought : Fl.F
  nought = Fl.lit 0 1

  unfoldable pub default_policy : Policy Fl.F
  default_policy = record {
    reliability_floor = Fl.lit 9 10;
    outlier_factor = Fl.of_nat 3;
    min_class_sample = 8;
    cold_start_bytes = 0;
    session_hours = Fl.of_nat 1;
  }

  unfoldable pub cold_start_hours : Offer Fl.F → ℕ → Fl.F → Fl.F
  cold_start_hours o size median_mbps =
      let mbps = if Fl.le o.net_down_mbps nought then median_mbps else o.net_down_mbps in
      if size == 0
      then nought
      else if Fl.le mbps nought
      then nought
      else Fl.div (Fl.div (Fl.mul (Fl.of_nat size) (Fl.of_nat 8)) (Fl.mul mbps (Fl.lit 1000000 1)))
          (Fl.of_nat 3600)

  -- The method `sessionHours` has the same default.
  unfoldable pub session_hours_of : Policy Fl.F → Fl.F
  session_hours_of p = if Fl.le p.session_hours nought then Fl.of_nat 1 else p.session_hours

  unfoldable pub session_cost : Policy Fl.F → Fl.F → Offer Fl.F → Fl.F
  unfolding cold_start_hours session_hours_of
  session_cost p median_mbps o =
      Fl.mul (Fl.add (cold_start_hours o p.cold_start_bytes median_mbps) (session_hours_of p))
        o.price_hr

  unfoldable pub known_speeds : List (Offer Fl.F) → List Fl.F
  known_speeds [] = []
  known_speeds (o ∷ os) =
      let rest = known_speeds os in
      if Fl.lt nought o.net_down_mbps then o.net_down_mbps ∷ rest else rest

  unfoldable pub median_net_mbps : List (Offer Fl.F) → Fl.F
  unfolding known_speeds sort_stable
  median_net_mbps os =
      let speeds = known_speeds os in get_or (sort_stable Fl.lt speeds) (length speeds / 2) nought

  -- The positive prices of one GPU class.
  unfoldable pub class_prices : Text → List (Offer Fl.F) → List Fl.F
  class_prices model [] = []
  class_prices model (o ∷ os) =
      let rest = class_prices model os in
      if Fl.lt nought o.price_hr && text_eq o.gpu_model model then o.price_hr ∷ rest else rest

  unfoldable pub median : List Fl.F → Fl.F
  median sorted =
      let n = length sorted in
      if n == 0
      then nought
      else if n % 2 == 1
      then get_or sorted (n / 2) nought
      else Fl.div (Fl.add (get_or sorted (n / 2 - 1) nought) (get_or sorted (n / 2) nought))
          (Fl.of_nat 2)

  -- classMedians, read at one model: none where the map has no entry.
  unfoldable pub class_median_of : List (Offer Fl.F) → ℕ → Text → Option Fl.F
  unfolding class_prices median sort_stable
  class_median_of os min_sample model =
      let prices = class_prices model os in
      let least = if min_sample == 0 then 1 else min_sample in
      if ltb (length prices) least then none else some (median (sort_stable Fl.lt prices))

  -- The price is outside the class: below its median over the factor.
  unfoldable pub is_outlier : Option Fl.F → Policy Fl.F → Fl.F → Bool
  is_outlier none p price = false
  is_outlier (some med) p price =
      Fl.lt (Fl.of_nat 1) p.outlier_factor
      && Fl.lt nought price
      && Fl.lt (Fl.mul price p.outlier_factor) med

  -- The checks of `classify` behind the fit.
  unfoldable pub classify_trust : Criteria Fl.F → Policy Fl.F → Option Fl.F → Offer Fl.F → Reason
  unfolding equal_fold is_outlier
  classify_trust c p med o =
      if c.certified_only && not o.certified && not (equal_fold o.verification (bytes "verified"))
      then verification_withdrawn
      else if not c.allow_deverified && equal_fold o.verification (bytes "deverified")
      then verification_withdrawn
      else if Fl.lt nought p.reliability_floor
          && Fl.lt nought o.reliability
          && Fl.lt o.reliability p.reliability_floor
      then reliability_below_floor
      else if is_outlier med p o.price_hr
      then price_outlier
      else eligible

  -- The fit and what follows it. `fits` is none where the caller gives no FitFunc.
  unfoldable pub classify_fit :
      Criteria Fl.F → Option (Offer Fl.F → Reason) → Policy Fl.F → Option Fl.F → Offer Fl.F → Reason
  unfolding classify_trust passed
  classify_fit c none p med o = classify_trust c p med o
  classify_fit c (some fit) p med o = if passed (fit o) then classify_trust c p med o else fit o

  unfoldable pub classify :
      Criteria Fl.F
      → Option (Offer Fl.F → Reason)
      → Policy Fl.F
      → (Text → Option Fl.F)
      → Offer Fl.F
      → Reason
  unfolding classify_fit vram_total_gb permits
  classify c fits p medians o =
      if not (permits c.interruptible o.interruptible)
      then interruptible_not_permitted
      else if Fl.lt nought c.max_price_hr && Fl.lt c.max_price_hr o.price_hr
      then above_max_price
      else if ltb 0 c.gpu_count && ltb o.gpu_count c.gpu_count
      then hardware_outside_criteria
      else if ltb 0 c.max_gpu_count && ltb c.max_gpu_count o.gpu_count
      then hardware_outside_criteria
      else if ltb 0 c.vram_per_gpu_gb && ltb o.vram_per_gpu_gb c.vram_per_gpu_gb
      then hardware_outside_criteria
      else if ltb 0 c.vram_total_gb && ltb (vram_total_gb o) c.vram_total_gb
      then hardware_outside_criteria
      else classify_fit c fits p (medians o.gpu_model) o

  unfoldable pub cheaper : Policy Fl.F → Fl.F → Candidate Fl.F → Candidate Fl.F → Bool
  unfolding session_cost text_lt
  cheaper p med a b =
      let ca = session_cost p med a.offer in
      let cb = session_cost p med b.offer in
      if not (Fl.eq ca cb)
      then Fl.lt ca cb
      else if not (Fl.eq a.offer.price_hr b.offer.price_hr)
      then Fl.lt a.offer.price_hr b.offer.price_hr
      else if not (Fl.eq a.offer.reliability b.offer.reliability)
      then Fl.lt b.offer.reliability a.offer.reliability
      else text_lt a.offer.offer_id b.offer.offer_id

  unfoldable pub weigh :
      Criteria Fl.F
      → Option (Offer Fl.F → Reason)
      → Policy Fl.F
      → (Text → Option Fl.F)
      → List (Offer Fl.F)
      → List (Candidate Fl.F)
  unfolding classify
  weigh c fits p medians [] = []
  weigh c fits p medians (o ∷ os) =
      record {
        offer = o;
        reason = classify c fits p medians o;
        class_median = elim (medians o.gpu_model) [ none ↦ nought | some m ↦ m ];
      }
      ∷ weigh c fits p medians os

  unfoldable pub mark_costlier : List (Candidate Fl.F) → List (Candidate Fl.F)
  unfolding passed
  mark_costlier [] = []
  mark_costlier (c ∷ cs) =
      (if passed c.reason then record c { reason = costlier_than_selection } else c)
      ∷ mark_costlier cs

  -- The first that passed is selected. Nothing before it passed, so only those behind it are marked.
  unfoldable pub settle : List (Candidate Fl.F) → Result Fl.F
  unfolding mark_costlier passed
  settle [] = record { selected = none; candidates = [] }
  settle (c ∷ cs) =
      let rest = settle cs in
      if passed c.reason
      then record { selected = some c; candidates = c ∷ mark_costlier cs }
      else record { selected = rest.selected; candidates = c ∷ rest.candidates }

  unfoldable pub select :
      List (Offer Fl.F) → Criteria Fl.F → Option (Offer Fl.F → Reason) → Policy Fl.F → Result Fl.F
  unfolding class_median_of median_net_mbps weigh cheaper settle
  select offers c fits p =
      let medians = class_median_of offers p.min_class_sample in
      settle (sort_stable (cheaper p (median_net_mbps offers)) (weigh c fits p medians offers))
