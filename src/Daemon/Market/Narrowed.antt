-- ===== src/Daemon/Market/Narrowed.antt =====
-- What the exclusions of internal/daemon/up.go take out of a market, and what they leave.
use larri.Prelude.{
  ◌≡◌, ◌⊎◌, inl, inr, refl, Bool, true, false, not, ◌&&◌, ◌||◌, List, [], ◌∷◌, ◌++◌, arith, All,
  All-map, All-Among, Among, filter, filter-All, Bool-cases, if◌then◌else◌,
}
use larri.Prelude.Text.{Text, text_eq_refl, is_empty, trim_space}
use larri.Core.Criteria.{Offer}
use larri.Daemon.Market.{
  Exclusions, contains, offer_key, machine_key, exclude_failed, note_model_failure, without_offers,
  without_models, without_machines, is_nothing, narrow, retired_models,
}

contains-append :
    (xs ys : List Text) (k : Text) → contains (xs ++ ys) k ≡ (contains xs k || contains ys k)
unfolding contains
contains-append [] ys k = refl
contains-append (x ∷ xs) ys k = ground (arith, contains-append xs ys k)

contains_last : (xs : List Text) (k : Text) → contains (xs ++ (k ∷ [])) k ≡ true
unfolding contains
contains_last [] k = ground (arith, text_eq_refl k)
contains_last (x ∷ xs) k = ground (arith, contains_last xs k)

module _ {F : Type 0} where
  -- The offer's machine or its listing is among the excluded ones.
  abbrev pub barred : Exclusions → Offer F → Bool
  barred ex o =
      (not (is_empty (machine_key o)) && contains ex.machines (machine_key o))
      || contains ex.listings (offer_key o)

  kept_or :
      (P : Offer F → Type 0) (left kept : List (Offer F))
      → All P left
      → All P kept
      → All P (if is_nothing kept then left else kept)
  kept_or P left kept h k = elim (Bool-cases (is_nothing kept)) [ inl e ↦ rw e h | inr e ↦ rw e k ]

  filter-is_nothing :
      (p : Offer F → Bool) (left : List (Offer F))
      → is_nothing (if is_nothing (filter p left) then left else filter p left) ≡ is_nothing left
  unfolding is_nothing filter
  filter-is_nothing p [] = refl
  filter-is_nothing p (o ∷ os) = elim (Bool-cases (is_nothing (filter p (o ∷ os)))) [
    | inl e ↦ rw e refl
    | inr e ↦ rw e e
  ]

  -- What `narrow` keeps stands in the market and is not barred.
  pub narrow-All :
      (ex : Exclusions) (offers : List (Offer F))
      → All (λ o. Among o offers × (barred ex o ≡ false)) (narrow ex offers)
  unfolding narrow without_machines without_offers without_models
  narrow-All ex offers =
      let here =
        filter-All (λ o. is_empty (machine_key o) || not (contains ex.machines (machine_key o)))
          (λ o. Among o offers) offers (All-Among offers) in
      let listed = filter-All (λ o. not (contains ex.listings (offer_key o))) _ _ here in
      let left =
        All-map {Q = λ o. Among o offers × (barred ex o ≡ false)} (λ o h. (h.1.1, ground arith)) _
          listed in
      kept_or _ _ _ left (
        All-map (λ o h. h.1) _
          (filter-All (λ o. not (contains (retired_models ex) (trim_space o.gpu_model))) _ _ left))

  -- Retired models are left in where nothing else is on offer.
  pub narrow-is_nothing :
      (ex : Exclusions) (offers : List (Offer F))
      → is_nothing (narrow ex offers)
        ≡ is_nothing (without_offers (without_machines offers ex.machines) ex.listings)
  unfolding narrow without_models
  narrow-is_nothing ex offers = filter-is_nothing _ _

  -- The two offers are of one machine, or of one listing where no machine is named.
  abbrev pub SameHost : Offer F → Offer F → Type 0
  SameHost o p =
      ((is_empty (machine_key o) ≡ false) × (machine_key p ≡ machine_key o))
      ⊎ ((is_empty (machine_key o) ≡ true)
          × ((is_empty (offer_key o) ≡ false) × (offer_key p ≡ offer_key o)))

  pub exclude_failed-barred :
      (ex : Exclusions) (o p : Offer F) → SameHost o p → barred (exclude_failed ex o) p ≡ true
  unfolding exclude_failed
  exclude_failed-barred ex o p (inl (h, e)) =
      ground (arith, contains_last ex.machines (machine_key o))
  exclude_failed-barred ex o p (inr (h, (k, e))) =
      ground (arith, contains_last ex.listings (offer_key o))

  -- A failure bars no fewer offers than before.
  pub exclude_failed_mono :
      (ex : Exclusions) (o p : Offer F) → barred ex p ≡ true → barred (exclude_failed ex o) p ≡ true
  unfolding exclude_failed
  exclude_failed_mono ex o p h = ground (
    arith,
    contains-append ex.machines (machine_key o ∷ []) (machine_key p),
    contains-append ex.listings (offer_key o ∷ []) (offer_key p),
  )

  pub note_model_failure-barred :
      (ex : Exclusions) (o p : Offer F) (op : Text)
      → barred (note_model_failure ex o op) p ≡ barred ex p
  unfolding note_model_failure
  note_model_failure-barred ex o p op = ground arith
