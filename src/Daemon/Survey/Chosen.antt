-- ===== src/Daemon/Survey/Chosen.antt =====
-- What a survey of internal/daemon/up.go has checked of the offer that it selects.
use larri.Prelude.{
  ℕ, ◌≤◌, ◌≡◌, ◌⊎◌, inl, inr, refl, sym, ap, ◌∙◌, Bool, true, false, Option, some, List, [], arith,
  Among, Among-All, Bool-cases,
}
use larri.Prelude.Float.{Float}
use larri.Core.Criteria.{Criteria, Offer}
use larri.Sizing.Facts.{Facts}
use larri.Sizing.Plan.{Request, SizingPlan, Planned, planned, refused, plan}
use larri.Rank.{Policy, Reason, eligible, Candidate, Result, select}
use larri.Rank.Floors.{classify_iff}
use larri.Rank.Select.{select-eligible}
use larri.Daemon.World.{ErrorClass}
use larri.Daemon.Market.{Exclusions, narrow}
use larri.Daemon.Market.Narrowed.{barred, narrow-All}
use larri.Daemon.Disk.{disk_need_gb, size_disk, cold_start_bytes}
use larri.Daemon.Disk.Enough.{size_disk-le}
use larri.Daemon.Survey.{
  ModelSpec, Answer, answered, failed_with, Outside, UpRequest, Survey, Surveyed, surveyed,
  not_surveyed, unplanned, survey, survey_sized, survey_answered, survey_ranked, place,
  placed_request, base_request, fits_of, resolve_weights, asked_disk, is_unsatisfiable,
  searched_disk,
}

Answer-cases :
    {A : Type 0} (a : Answer A)
    → ((x : A) × (a ≡ answered x)) ⊎ ((e : ErrorClass) × (a ≡ failed_with e))
Answer-cases (answered x) = inl (x, refl)
Answer-cases (failed_with e) = inr (e, refl)

module _ (Fl : Float) (w : Outside Fl) (policy : Policy Fl.F) (ex : Exclusions)
    (req : UpRequest Fl) where
  place-eq :
      (m : ModelSpec) (base : Request Fl) (disk : ℕ) (sel : Result Fl.F) (c : Candidate Fl.F)
      (s : Survey Fl)
      → place Fl w m base disk sel c ≡ surveyed s
      → (plan Fl (placed_request Fl w base c.offer) ≡ planned s.placed)
        × ((s.selected ≡ c) × ((s.disk_gb ≡ disk) × (s.model ≡ m)))
  unfolding place
  place-eq m base disk sel c s h = ground arith

  -- The criteria that the market is searched with.
  abbrev pub searched : ℕ → Criteria Fl.F
  searched disk = record (req.criteria) { disk_gb = disk }

  ranked-eq :
      (m : ModelSpec) (base : Request Fl) (sized : Option ℕ) (p : SizingPlan Fl) (c : Criteria Fl.F)
      (b : Bool) (os : List (Offer Fl.F)) (s : Survey Fl)
      → survey_ranked Fl w policy ex m base sized p c b os ≡ surveyed s
      → (sized ≡ some s.disk_gb)
        × ((s.model ≡ m)
            × ((plan Fl (placed_request Fl w base s.selected.offer) ≡ planned s.placed)
                × ((select Fl
                      (narrow ex os)
                      c
                      (some (fits_of Fl w c base))
                      (record policy { cold_start_bytes = cold_start_bytes Fl p })).selected
                    ≡ some s.selected)))
  unfolding survey_ranked
  ranked-eq m base sized p c b os s h = grind (arith, place-eq)

  -- What a survey has checked: the search's answer, the plan made before a card was known, the disk,
  -- the offer, and the plan on its cards.
  pub record Checked (s : Survey Fl) : Type 0 where
    pub facts : Facts Fl.F
    pub offers : List (Offer Fl.F)
    pub unplaced : SizingPlan Fl
    pub model_lem : resolve_weights Fl w req.model ≡ answered s.model
    pub facts_lem : w.facts ≡ answered facts
    pub market_lem : w.market (searched s.disk_gb) ≡ answered offers
    pub unplaced_lem : plan Fl (base_request Fl w s.model facts) ≡ planned unplaced
    pub disk_enough : disk_need_gb Fl unplaced ≤ s.disk_gb
    pub listed : Among s.selected.offer offers
    pub free : barred ex s.selected.offer ≡ false
    pub fitting :
        fits_of Fl w (searched s.disk_gb) (base_request Fl w s.model facts) s.selected.offer
        ≡ eligible
    pub placed_lem :
        plan Fl (placed_request Fl w (base_request Fl w s.model facts) s.selected.offer)
        ≡ planned s.placed

  selected_lem :
      (os : List (Offer Fl.F)) (c : Criteria Fl.F) (fits : Offer Fl.F → Reason) (p : Policy Fl.F)
      (s : Candidate Fl.F)
      → (select Fl (narrow ex os) c (some fits) p).selected ≡ some s
      → Among s.offer os × ((barred ex s.offer ≡ false) × (fits s.offer ≡ eligible))
  selected_lem os c fits p s h =
      let k = select-eligible Fl (narrow ex os) c (some fits) p s h in
      let kept =
        Among-All (λ o. Among o os × (barred ex o ≡ false)) s.offer (narrow ex os) k.0
          (narrow-All ex os) in
      (kept.0, (kept.1, ((classify_iff Fl c (some fits) p _ s.offer).0 k.1).1.0))

  select-nothing :
      (c : Criteria Fl.F) (fits : Offer Fl.F → Reason) (p : Policy Fl.F) (s : Candidate Fl.F)
      → (select Fl (narrow ex []) c (some fits) p).selected ≡ some s
      → ⊥
  select-nothing c fits p s h = (selected_lem [] c fits p s h).0

  -- What is known once the first plan is made.
  abbrev Given : ModelSpec → Facts Fl.F → SizingPlan Fl → Type 0
  Given m f p =
      (resolve_weights Fl w req.model ≡ answered m)
      × ((w.facts ≡ answered f) × (plan Fl (base_request Fl w m f) ≡ planned p))

  ranked-Checked :
      (m : ModelSpec) (f : Facts Fl.F) (p : SizingPlan Fl) (b : Bool) (os : List (Offer Fl.F))
      (s : Survey Fl)
      → Given m f p
      → (let sized = size_disk Fl (asked_disk Fl req) p in
          let c = searched (searched_disk Fl (disk_need_gb Fl p) sized) in
          (w.market c ≡ answered os)
          × (survey_ranked Fl w policy ex m (base_request Fl w m f) sized p c b os ≡ surveyed s))
      → Checked s
  unfolding searched_disk
  ranked-Checked m f p b os s e (eo, h) =
      let sized = size_disk Fl (asked_disk Fl req) p in
      let k = ranked-eq m (base_request Fl w m f) sized p _ b os s h in
      let here = selected_lem os _ _ _ s.selected k.1.1.1 in
      let at : searched (searched_disk Fl (disk_need_gb Fl p) sized) ≡ searched s.disk_gb =
        rw k.0 refl in
      let same : base_request Fl w s.model f ≡ base_request Fl w m f =
        ap (λ n. base_request Fl w n f) k.1.0 in
      record {
        facts = f;
        offers = os;
        unplaced = p;
        model_lem = rw k.1.0 e.0;
        facts_lem = e.1.0;
        market_lem = sym (ap w.market at) ∙ eo;
        unplaced_lem = ap (plan Fl) same ∙ e.1.1;
        disk_enough = size_disk-le Fl (asked_disk Fl req) p s.disk_gb k.0;
        listed = here.0;
        free = here.1.0;
        fitting = rw (same, ← at) here.1.1;
        placed_lem = rw same k.1.1.0;
      }

  refused_nothing :
      (m : ModelSpec) (base : Request Fl) (sized : Option ℕ) (p : SizingPlan Fl) (c : Criteria Fl.F)
      (k : ErrorClass) (s : Survey Fl)
      → survey_answered Fl w policy ex m base sized p c (failed_with k) ≡ surveyed s
      → ⊥
  unfolding survey_answered
  refused_nothing m base sized p c k s h = elim (Bool-cases (is_unsatisfiable Fl k)) [
    | inl e ↦
        (let h' : survey_ranked Fl w policy ex m base sized p c true [] ≡ surveyed s =
            ground arith in
          (selected_lem [] _ _ _ s.selected (ranked-eq m base sized p c true [] s h').1.1.1).0)
    | inr e ↦ ground arith
  ]

  answered-Checked :
      (m : ModelSpec) (f : Facts Fl.F) (p : SizingPlan Fl) (a : Answer (List (Offer Fl.F)))
      (s : Survey Fl)
      → Given m f p
      → (let sized = size_disk Fl (asked_disk Fl req) p in
          let c = searched (searched_disk Fl (disk_need_gb Fl p) sized) in
          (w.market c ≡ a)
          × (survey_answered Fl w policy ex m (base_request Fl w m f) sized p c a ≡ surveyed s))
      → Checked s
  unfolding survey_answered
  answered-Checked m f p (answered os) s e h = ranked-Checked m f p false os s e h
  answered-Checked m f p (failed_with k) s e h =
      absurd (refused_nothing m (base_request Fl w m f) _ p _ k s h.1)

  planned-Checked :
      (m : ModelSpec) (f : Facts Fl.F) (q : Planned (SizingPlan Fl)) (s : Survey Fl)
      → (resolve_weights Fl w req.model ≡ answered m)
        × ((w.facts ≡ answered f) × (plan Fl (base_request Fl w m f) ≡ q))
      → elim q as (λ _. Surveyed Fl) [
        | refused e ↦ not_surveyed (unplanned e)
        | planned p ↦ survey_sized Fl w policy ex req m (base_request Fl w m f) p
      ]
        ≡ surveyed s
      → Checked s
  unfolding survey_sized
  planned-Checked m f (refused e) s k h = cc
  planned-Checked m f (planned p) s k h = answered-Checked m f p _ s k (refl, h)

  -- A survey that succeeds has been given a market for a disk that holds the plan, and has chosen from
  -- it an offer that no exclusion bars and that the engine and the model fit on.
  pub survey-Checked : (s : Survey Fl) → survey Fl w policy ex req ≡ surveyed s → Checked s
  unfolding survey
  survey-Checked s h = elim (Answer-cases (resolve_weights Fl w req.model)) [
    | inl (m, em) ↦ elim (Answer-cases w.facts) [
      | inl (f, ef) ↦ planned-Checked m f _ s (em, (ef, refl)) (ground arith)
      | inr (k, ek) ↦ absurd (ground arith)
    ]
    | inr (k, ek) ↦ absurd (ground arith)
  ]
