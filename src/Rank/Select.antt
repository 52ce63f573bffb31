-- ===== src/Rank/Select.antt =====
-- What Select of internal/rank/rank.go chooses.
use larri.Prelude.{
  ◌≡◌, ◌⊎◌, inl, inr, refl, sym, ◌∙◌, Bool, true, false, not, Option, none, some, List, [], ◌∷◌,
  All, All-map, All-Among, Among, Among-All, arith, Bool-cases, if◌then◌else◌,
}
use mathlib.Core.Path.{subst}
use larri.Prelude.Text.{Text}
use larri.Prelude.Order.{sort_stable}
use larri.Prelude.Float.{Float}
use larri.Core.Criteria.{Criteria, Offer}
use larri.Rank.{
  Policy, Reason, eligible, passed, Candidate, class_median_of, classify, cheaper, weigh, settle,
  select, session_cost, median_net_mbps,
}
use larri.Prelude.Order.Sorting.{Sorted, sort_stable-All, All-sort_stable, sort_stable-Sorted_where}

module _ (Fl : Float) where
  settle-passed :
      (c : Candidate Fl.F) (cs : List (Candidate Fl.F))
      → passed c.reason ≡ true
      → (settle Fl (c ∷ cs)).selected ≡ some c
  unfolding settle
  settle-passed c cs e = ground arith

  settle_later :
      (c : Candidate Fl.F) (cs : List (Candidate Fl.F))
      → passed c.reason ≡ false
      → (settle Fl (c ∷ cs)).selected ≡ (settle Fl cs).selected
  unfolding settle
  settle_later c cs e = ground arith

  -- What Select promises of its choice: it passed, it was considered, and none that passed precedes it.
  abbrev Chosen :
      (Candidate Fl.F → Candidate Fl.F → Type 0) → List (Candidate Fl.F) → Candidate Fl.F → Type 0
  Chosen P cs s =
      (passed s.reason ≡ true) × (Among s cs × All (λ c. (passed c.reason ≡ false) ⊎ P s c) cs)

  settle_nothing : (s : Candidate Fl.F) → (settle Fl []).selected ≡ some s → ⊥
  unfolding settle
  settle_nothing s h = cc

  settle-Chosen :
      (P : Candidate Fl.F → Candidate Fl.F → Type 0) (itself : (c : Candidate Fl.F) → P c c)
      (cs : List (Candidate Fl.F)) (s : Candidate Fl.F)
      → Sorted P cs
      → (settle Fl cs).selected ≡ some s
      → Chosen P cs s
  settle-Chosen P itself [] s sorted h = absurd (settle_nothing s h)
  settle-Chosen P itself (c ∷ cs) s sorted h = elim (Bool-cases (passed c.reason)) [
    | inl e ↦
        let same : c ≡ s = ground (arith, settle-passed c cs e) in
        subst (Chosen P (c ∷ cs)) same
          (e, (inl refl, (inr (itself c), All-map (λ z p. inr p) cs sorted.0)))
    | inr e ↦
        let k = settle-Chosen P itself cs s sorted.1 (sym (settle_later c cs e) ∙ h) in
        (k.0, (inr k.1.0, (inl e, k.1.1)))
  ]

  pub settle-none :
      (cs : List (Candidate Fl.F))
      → (settle Fl cs).selected ≡ none
      → All (λ c. passed c.reason ≡ false) cs
  settle-none [] h = tt
  settle-none (c ∷ cs) h = elim (Bool-cases (passed c.reason)) [
    | inl e ↦ absurd (ground (arith, settle-passed c cs e))
    | inr e ↦ (e, settle-none cs (sym (settle_later c cs e) ∙ h))
  ]

  -- A statement about every candidate is one about every offer.
  module _ (c : Criteria Fl.F) (fits : Option (Offer Fl.F → Reason)) (p : Policy Fl.F)
      (medians : Text → Option Fl.F) where
    pub All-weigh :
        (Q : Reason → Offer Fl.F → Type 0) (os : List (Offer Fl.F))
        → All (λ d. Q d.reason d.offer) (weigh Fl c fits p medians os)
        → All (λ o. Q (classify Fl c fits p medians o) o) os
    unfolding weigh
    All-weigh Q [] h = tt
    All-weigh Q (o ∷ os) h = (h.0, All-weigh Q os h.1)

    -- A candidate is an offer with its verdict.
    weigh-All :
        (os : List (Offer Fl.F))
        → All
            (λ d. Among d.offer os × (d.reason ≡ classify Fl c fits p medians d.offer))
            (weigh Fl c fits p medians os)
    unfolding weigh
    weigh-All [] = tt
    weigh-All (o ∷ os) = ((inl refl, refl), All-map (λ d k. (inr k.0, k.1)) _ (weigh-All os))

passed_eligible : (v : Reason) → passed v ≡ true → v ≡ eligible
unfolding passed
passed_eligible v h = ground arith

-- Whatever the order, what is selected was considered and passes.
module _ (Fl : Float) (offers : List (Offer Fl.F)) (c : Criteria Fl.F)
    (fits : Option (Offer Fl.F → Reason)) (p : Policy Fl.F) where
  anything-Sorted : (cs : List (Candidate Fl.F)) → Sorted (λ _ _. Unit {0}) cs
  anything-Sorted [] = tt
  anything-Sorted (d ∷ cs) = (All-map (λ _ _. tt) cs (All-Among cs), anything-Sorted cs)

  pub select-eligible :
      (s : Candidate Fl.F)
      → (select Fl offers c fits p).selected ≡ some s
      → Among s.offer offers
        × (classify Fl c fits p (class_median_of Fl offers p.min_class_sample) s.offer ≡ eligible)
  unfolding select
  select-eligible s h =
      let less = cheaper Fl p (median_net_mbps Fl offers) in
      let medians = class_median_of Fl offers p.min_class_sample in
      let weighed = weigh Fl c fits p medians offers in
      let k =
        settle-Chosen Fl (λ _ _. Unit {0}) (λ _. tt) (sort_stable less weighed) s
          (anything-Sorted (sort_stable less weighed)) h in
      let Seen : Candidate Fl.F → Type 0 =
        λ d. Among d.offer offers × (d.reason ≡ classify Fl c fits p medians d.offer) in
      let here =
        Among-All Seen s (sort_stable less weighed) k.1.0
          (sort_stable-All less Seen weighed (weigh-All Fl c fits p medians offers)) in
      (here.0, sym here.1 ∙ passed_eligible s.reason k.0)

no_dearer : (v : Reason) (b : Bool) → (passed v ≡ false) ⊎ (b ≡ false) → v ≡ eligible → b ≡ false
unfolding passed
no_dearer v b q e = ground arith

-- The order of float64, which is transitive across every number and not across NaN.
module _ (Fl : Float) (lt-asym : (a b : Fl.F) → Fl.lt a b ≡ true → Fl.lt b a ≡ false)
    (lt-trans : (a b c : Fl.F)
      → Fl.eq b b ≡ true
      → Fl.lt b a ≡ false
      → Fl.lt c b ≡ false
      → Fl.lt c a ≡ false)
    (eq-lt : (a b : Fl.F) → Fl.eq a b ≡ true → (Fl.lt a b ≡ false) × (Fl.lt b a ≡ false))
    (offers : List (Offer Fl.F)) (c : Criteria Fl.F) (fits : Option (Offer Fl.F → Reason))
    (p : Policy Fl.F) where
  abbrev pub verdict : Offer Fl.F → Reason
  verdict = classify Fl c fits p (class_median_of Fl offers p.min_class_sample)

  abbrev pub cost_of : Offer Fl.F → Fl.F
  cost_of = session_cost Fl p (median_net_mbps Fl offers)

  abbrev NoDearer : Candidate Fl.F → Candidate Fl.F → Type 0
  NoDearer a b = Fl.lt (cost_of b.offer) (cost_of a.offer) ≡ false

  -- `NoDearer` is this of the costs, and `less` is as the comparison begins.
  compared :
      (ca cb : Fl.F) (tie : Bool)
      → (((if not (Fl.eq ca cb) then Fl.lt ca cb else tie) ≡ true) → Fl.lt cb ca ≡ false)
        × (((if not (Fl.eq ca cb) then Fl.lt ca cb else tie) ≡ false) → Fl.lt ca cb ≡ false)
  compared ca cb tie = elim (Bool-cases (Fl.eq ca cb)) [
    | inl e ↦ (λ h. (eq-lt ca cb e).1, λ h. (eq-lt ca cb e).0)
    | inr e ↦ rw (e) (λ h. lt-asym ca cb h, λ h. h)
  ]

  cheaper-NoDearer :
      (a b : Candidate Fl.F) → cheaper Fl p (median_net_mbps Fl offers) b a ≡ true → NoDearer b a
  unfolding cheaper
  cheaper-NoDearer a b h = (compared (cost_of b.offer) (cost_of a.offer) _).0 h

  not_cheaper-NoDearer :
      (a b : Candidate Fl.F) → cheaper Fl p (median_net_mbps Fl offers) b a ≡ false → NoDearer a b
  unfolding cheaper
  not_cheaper-NoDearer a b h = (compared (cost_of b.offer) (cost_of a.offer) _).1 h

  itself-NoDearer : (a : Candidate Fl.F) → NoDearer a a
  itself-NoDearer a = elim (Bool-cases (Fl.lt (cost_of a.offer) (cost_of a.offer))) [
    | inl e ↦ lt-asym _ _ e
    | inr e ↦ e
  ]

  abbrev weighed : List (Candidate Fl.F)
  weighed = weigh Fl c fits p (class_median_of Fl offers p.min_class_sample) offers

  -- The cost of the offer is no NaN: it is equal to itself.
  abbrev pub HasCost : Offer Fl.F → Type 0
  HasCost o = Fl.eq (cost_of o) (cost_of o) ≡ true

  weighed-HasCost : All HasCost offers → All (λ d. HasCost d.offer) weighed
  weighed-HasCost h =
      All-map (λ d k. Among-All HasCost d.offer offers k.0 h) weighed
        (weigh-All Fl c fits p (class_median_of Fl offers p.min_class_sample) offers)

  Sorted-NoDearer :
      All HasCost offers
      → Sorted NoDearer (sort_stable (cheaper Fl p (median_net_mbps Fl offers)) weighed)
  Sorted-NoDearer h =
      sort_stable-Sorted_where (cheaper Fl p (median_net_mbps Fl offers)) NoDearer
        (λ d. HasCost d.offer) cheaper-NoDearer not_cheaper-NoDearer (λ x y z. lt-trans _ _ _)
        weighed (weighed-HasCost h)

  -- Where no offer's session cost is NaN, and the order of float64 is asymmetric, negatively transitive
  -- across every number and has neither of two equal values below the other: Select takes an offer that was
  -- considered and that passes every check, and no offer that passes costs less for the session, download
  -- included.
  pub select-cheapest :
      (s : Candidate Fl.F)
      → All HasCost offers
      → (select Fl offers c fits p).selected ≡ some s
      → Among s.offer offers
        × ((verdict s.offer ≡ eligible)
            × All
                (λ o. (verdict o ≡ eligible) → Fl.lt (cost_of o) (cost_of s.offer) ≡ false)
                offers)
  unfolding select
  select-cheapest s costs h =
      let less = cheaper Fl p (median_net_mbps Fl offers) in
      let medians = class_median_of Fl offers p.min_class_sample in
      let k =
        settle-Chosen Fl NoDearer itself-NoDearer (sort_stable less weighed) s
          (Sorted-NoDearer costs) h in
      let Seen : Candidate Fl.F → Type 0 =
        λ d. Among d.offer offers × (d.reason ≡ classify Fl c fits p medians d.offer) in
      let here =
        Among-All Seen s (sort_stable less weighed) k.1.0
          (sort_stable-All less Seen weighed (weigh-All Fl c fits p medians offers)) in
      let rest =
        All-sort_stable less (λ d. (passed d.reason ≡ false) ⊎ NoDearer s d) weighed k.1.1 in
      (
        here.0,
        (
          sym here.1 ∙ passed_eligible s.reason k.0,
          All-map (λ o q e. no_dearer (verdict o) _ q e) offers
              (All-weigh Fl c fits p medians
                (λ v o. (passed v ≡ false) ⊎ (Fl.lt (cost_of o) (cost_of s.offer) ≡ false)) offers
                rest),
        ),
      )
