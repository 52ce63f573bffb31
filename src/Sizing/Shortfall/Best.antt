-- ===== src/Sizing/Shortfall/Best.antt =====
-- The best offer that Analyse of internal/sizing/shortfall.go finds.
use mathlib.Core.Path.{subst}
use larri.Prelude.{
  ℕ, ◌≡◌, ◌≤◌, refl, sym, ltb, ◌⊎◌, inl, inr, Option, none, some, List, [], ◌∷◌, All, Among, arith,
  Bool-cases,
}
use larri.Prelude.Float.{Float}
use larri.Core.Criteria.{Offer}
use larri.Sizing.Plan.{Request}
use larri.Sizing.Shortfall.{
  Shortfall, need_on, available_on, is_better, consider, consider_all, shards_of,
}

module _ (Fl : Float) (r : Request Fl) (f : Option (ℕ → ℕ)) where
  -- The figures of a report are those of an offer.
  abbrev pub Figures : Shortfall Fl.F → Offer Fl.F → Type 0
  Figures s b =
      (s.best_vram ≡ available_on Fl f b)
      × ((s.best_need ≡ need_on Fl r f s.required b) × (s.best_shards ≡ shards_of f b.gpu_count))

  -- What is said of a best offer: none is roomier, and the figures are its own.
  abbrev pub IsBest : List (Offer Fl.F) → Shortfall Fl.F → Option (Offer Fl.F) → Type 0
  IsBest os s none = All (λ o. ⊥) os × (s.best_vram ≡ 0)
  IsBest os s (some b) =
      Among b os × (All (λ o. available_on Fl f o ≤ available_on Fl f b) os × Figures s b)

  consider_first :
      (s : Shortfall Fl.F) (o : Offer Fl.F)
      → s.best ≡ none
      → ((consider Fl r f s o).best ≡ some o) × Figures (consider Fl r f s o) o
  unfolding consider is_better
  consider_first s o e = rw (e, consider, is_better) (refl, (refl, (refl, refl)))

  is_better-some :
      (q : Option (Offer Fl.F)) (b : Offer Fl.F) (v a : ℕ)
      → q ≡ some b
      → is_better Fl q v a ≡ ltb v a
  unfolding is_better
  is_better-some q b v a e = rw (e, is_better) refl

  consider_next :
      (s : Shortfall Fl.F) (b o : Offer Fl.F)
      → s.best ≡ some b
      → Figures s b
      → (((consider Fl r f s o).best ≡ some o)
          × (Figures (consider Fl r f s o) o × (available_on Fl f b ≤ available_on Fl f o)))
        ⊎ (((consider Fl r f s o).best ≡ some b)
            × (Figures (consider Fl r f s o) b × (available_on Fl f o ≤ available_on Fl f b)))
  unfolding consider
  consider_next s b o q h =
      let a = available_on Fl f o in
      let t = is_better-some s.best b s.best_vram a q in
      elim (Bool-cases (is_better Fl s.best s.best_vram a)) [
        | inl e ↦ inl (rw (e, consider) (refl, ((refl, (refl, refl)), ground (arith, t, e, h.0))))
        | inr e ↦ inr (rw (e, consider) (q, (h, ground (arith, t, e, h.0))))
      ]

  -- A best offer that is as roomy as what was seen before.
  abbrev BestFrom : List (Offer Fl.F) → Shortfall Fl.F → Offer Fl.F → Type 0
  BestFrom os s b =
      (c : Offer Fl.F) × ((s.best ≡ some c)
        × (Figures s c
            × (((b ≡ c) ⊎ Among c os)
                × ((available_on Fl f b ≤ available_on Fl f c)
                    × All (λ o. available_on Fl f o ≤ available_on Fl f c) os))))

  consider_all-BestFrom :
      (s : Shortfall Fl.F) (os : List (Offer Fl.F)) (b : Offer Fl.F)
      → s.best ≡ some b
      → Figures s b
      → BestFrom os (consider_all Fl r f s os) b
  unfolding consider_all
  consider_all-BestFrom s [] b q h = (b, (q, (h, (inl refl, (omega arith, tt)))))
  consider_all-BestFrom s (o ∷ os) b q h = elim (consider_next s b o q h) [
    | inl (q', (h', m)) ↦
        let (c, k) = consider_all-BestFrom (consider Fl r f s o) os o q' h' in
        (c, (k.0, (k.1.0, (inr (k.1.1.0), (omega (arith, m, k.1.1.1.0), (k.1.1.1.0, k.1.1.1.1))))))
    | inr (q', (h', m)) ↦
        let (c, k) = consider_all-BestFrom (consider Fl r f s o) os b q' h' in
        (c, (k.0, (k.1.0, (later k.1.1.0, (k.1.1.1.0, (omega (arith, m, k.1.1.1.0), k.1.1.1.1))))))
  ]
    where
      later : {c : Offer Fl.F} → (b ≡ c) ⊎ Among c os → (b ≡ c) ⊎ Among c (o ∷ os)
      later (inl e) = inl e
      later (inr m) = inr (inr m)

  pub consider_all-IsBest :
      (s : Shortfall Fl.F) (os : List (Offer Fl.F))
      → s.best ≡ none
      → s.best_vram ≡ 0
      → IsBest os (consider_all Fl r f s os) (consider_all Fl r f s os).best
  unfolding consider_all
  consider_all-IsBest s [] e v = subst (IsBest [] s) (sym e) (tt, v)
  consider_all-IsBest s (o ∷ os) e v =
      let first = consider_first s o e in
      let (c, k) = consider_all-BestFrom (consider Fl r f s o) os o first.0 first.1 in
      subst (IsBest (o ∷ os) (consider_all Fl r f (consider Fl r f s o) os)) (sym k.0)
        (k.1.1.0, ((k.1.1.1.0, k.1.1.1.1), k.1.0))
