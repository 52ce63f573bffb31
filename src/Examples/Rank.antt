-- ===== src/Examples/Rank.antt =====
-- internal/rank/rank.go at a market of three offers.
use larri.Prelude.{
  ℕ, ◌≡◌, ◌↔◌, refl, true, false, Option, none, some, List, [], ◌∷◌, ltb, ◌==◌, All, Among, arith,
}
use larri.Prelude.Text.{text_eq, bytes, to_lower}
use larri.Prelude.Float.{millionths}
use larri.Core.State.{forbid, permits}
use larri.Core.Criteria.{Criteria, Offer}
use larri.Rank.{Policy, eligible, Candidate, class_median_of, classify, select}
use larri.Rank.Select.{verdict, cost_of, HasCost, select-cheapest}
use larri.Rank.Floors.{IsWithin, Fits, IsTrusted, classify_iff}
use larri.Examples.{offer_at}

pub ltb-asym : (a b : ℕ) → ltb a b ≡ true → ltb b a ≡ false
ltb-asym a b h = ground arith

pub ltb-trans : (a b c : ℕ) → (b == b) ≡ true → ltb b a ≡ false → ltb c b ≡ false → ltb c a ≡ false
ltb-trans a b c q h k = ground arith

equal-ltb : (a b : ℕ) → (a == b) ≡ true → (ltb a b ≡ false) × (ltb b a ≡ false)
equal-ltb a b h = ground arith

abbrev criteria_1 : Criteria ℕ
criteria_1 = record {
  gpu_model = [];
  gpu_count = 1;
  vram_per_gpu_gb = 24;
  vram_total_gb = 0;
  max_gpu_count = 0;
  allow_low_stock = false;
  cpu_cores = 0;
  ram_gb = 0;
  disk_gb = 0;
  regions = [];
  block_regions = [];
  max_price_hr = 1000000;
  interruptible = forbid;
  min_reliability = 0;
  providers = [];
  certified_only = false;
  allow_deverified = false;
  min_net_mbps = 0;
}

abbrev policy_1 : Policy ℕ
policy_1 = record {
  reliability_floor = 900000;
  outlier_factor = 3000000;
  min_class_sample = 8;
  cold_start_bytes = 20000000000;
  session_hours = 1000000;
}

abbrev slow : Offer ℕ
slow = offer_at 109000 980000 68700000

-- A cheap host on a slow link, a dearer one on a fast link, and one below the reliability floor.
abbrev market : List (Offer ℕ)
market = slow ∷ offer_at 216000 970000 1347000000 ∷ offer_at 50000 500000 1000000000 ∷ []

abbrev no_candidate : Candidate ℕ
no_candidate = record { offer = offer_at 0 0 0; reason = eligible; class_median = 0 }

abbrev chosen_of : Option (Candidate ℕ) → Candidate ℕ
chosen_of none = no_candidate
chosen_of (some c) = c

chosen_1 : Candidate ℕ
chosen_1 = chosen_of (select millionths market criteria_1 none policy_1).selected

chosen_1_lem : (select millionths market criteria_1 none policy_1).selected ≡ some chosen_1
unfolding chosen_1 select classify permits to_lower text_eq
chosen_1_lem = refl

pub equals_itself : (n : ℕ) → (n == n) ≡ true
equals_itself n = ground arith

market_costs :
    All (HasCost millionths ltb-asym ltb-trans equal-ltb market criteria_1 none policy_1) market
market_costs = (equals_itself _, (equals_itself _, (equals_itself _, tt)))

select-cheapest_example :
    Among chosen_1.offer market
    × ((verdict millionths ltb-asym ltb-trans equal-ltb market criteria_1 none policy_1
            chosen_1.offer
          ≡ eligible)
        × All
            (λ o.
              (verdict millionths ltb-asym ltb-trans equal-ltb market criteria_1 none policy_1 o
                ≡ eligible)
              → ltb
                  (cost_of millionths ltb-asym ltb-trans equal-ltb market criteria_1 none policy_1
                    o)
                  (cost_of millionths ltb-asym ltb-trans equal-ltb market criteria_1 none policy_1
                    chosen_1.offer)
                ≡ false)
            market)
select-cheapest_example =
    select-cheapest millionths ltb-asym ltb-trans equal-ltb market criteria_1 none policy_1 chosen_1
      market_costs chosen_1_lem

classify_iff_example :
    (classify millionths criteria_1 none policy_1 (class_median_of millionths market 8) slow
      ≡ eligible)
    ↔ (IsWithin millionths criteria_1 slow
        × (Fits millionths none slow
            × IsTrusted millionths criteria_1 policy_1
                (class_median_of millionths market 8 (bytes "A"))
                slow))
classify_iff_example =
    classify_iff millionths criteria_1 none policy_1 (class_median_of millionths market 8) slow

-- The host below the floor alone.
abbrev poor : List (Offer ℕ)
poor = offer_at 50000 500000 1000000000 ∷ []
