-- ===== src/Sizing/Plan/Laws.antt =====
-- What a plan of internal/sizing/sizing.go promises about the context length and the memory that it
-- names.
use larri.Prelude.{
  ℕ, zero, suc, ◌/◌, ◌≤◌, ◌<◌, ◌≡◌, ◌⊎◌, ◌↔◌, inl, inr, refl, sym, ap, ◌∙◌, List, [], ◌∷◌, ◌++◌,
  Bool, true, false, ◌&&◌, Option, none, some, arith, leb, ltb, ◌==◌, Bool-cases, Option-cases,
  if◌then◌else◌,
}
use mathlib.Core.Path.{subst}
use larri.Prelude.Float.{Float}
use larri.Sizing.Facts.{Facts, PlanError, params_unknown, unknown_quantization, validate}
use larri.Sizing.Quant.{bits_per_weight}
use larri.Sizing.Plan.{
  Warning, context_reduced, Request, plan_safety, SizingPlan, planned, refused, kv_bytes,
  overhead_bytes, total_bytes, reduce_context, plan_concurrency, plan_kv_elem, plan_gpus,
  plan_context, capped_context, cap_warnings, fit, fits_reduced, settle, plan_weighed,
  estimated_weights, plan,
}
use larri.Sizing.Plan.Reduce.{Answers, halved, reduce_context_lem}

positive : (n : ℕ) → 0 < n → (n == 0) ≡ false
positive n h = ground arith

-- The overhead of no card is that of one.
cards :
    (A : Float) (f : Facts A.F) (w conc elem : ℕ) (safety : A.F) (g c : ℕ)
    → total_bytes A f w conc elem safety g c
      ≡ total_bytes A f w conc elem safety (if g == 0 then 1 else g) c
unfolding total_bytes overhead_bytes
cards A f w conc elem safety zero c = refl
cards A f w conc elem safety (suc g) c = rw (positive (suc g) (omega arith))

halved-le : (c k : ℕ) → halved c k ≤ c
halved-le c zero = omega arith
halved-le c (suc k) = omega (arith, halved-le (c / 2) k)

module _ (A : Float) (req : Request A) where
  fits_reduced_lem :
      (weights c : ℕ)
      → fits_reduced A req weights c ≡ leb (fit A req weights c) req.available_vram_bytes
  unfolding fits_reduced fit
  fits_reduced_lem weights c =
      ap (λ t. leb t req.available_vram_bytes)
        (cards A req.facts weights (plan_concurrency A req) (plan_kv_elem A req) (plan_safety A req)
          req.gpu_count c)

  -- What holds of a plan with these weights and this context length.
  abbrev Settled : ℕ → SizingPlan A → Type 0
  Settled w p =
      (p.weights_bytes ≡ w)
      × (p.required_vram_bytes ≡ fit A req w p.context_len)
      × (p.kv_cache_bytes
          ≡ kv_bytes A req.facts p.context_len (plan_concurrency A req) (plan_kv_elem A req))
      × (p.tensor_parallel_size ≡ plan_gpus A req)
      × (p.fits_in_vram ≡ (
          if ltb 0 req.available_vram_bytes
          then leb p.required_vram_bytes req.available_vram_bytes
          else true))

  -- The length is the capped one, or the longest halving of it that fits.
  abbrev pub Chosen : ℕ → SizingPlan A → Type 0
  Chosen w p =
      ((p.context_len ≡ capped_context A req)
        × ((p.fits_in_vram ≡ true)
            ⊎ ((k : ℕ)
                → 512 ≤ halved (capped_context A req / 2) k
                → req.available_vram_bytes < fit A req w (halved (capped_context A req / 2) k))))
      ⊎ ((p.fits_in_vram ≡ true)
          × (512 ≤ p.context_len)
          × (req.available_vram_bytes < fit A req w (capped_context A req))
          × ((k : ℕ) × (p.context_len ≡ halved (capped_context A req / 2) k)
              × ((j : ℕ)
                  → j < k
                  → req.available_vram_bytes < fit A req w (halved (capped_context A req / 2) j))))

  settle-Settled : (w c : ℕ) (ws : List Warning) → Settled w (settle A req w c ws)
  unfolding settle
  settle-Settled w c ws = (refl, refl, refl, refl, refl)

  no_fit : (w c : ℕ) → fits_reduced A req w c ≡ false → req.available_vram_bytes < fit A req w c
  no_fit w c h = ground (arith, fits_reduced_lem w c)

  -- Is the context to be reduced?
  abbrev too_big : ℕ → Bool
  too_big w =
      ltb 0 req.available_vram_bytes
      && ltb req.available_vram_bytes (fit A req w (capped_context A req))

  -- The three ends of Plan.
  plan_kept :
      (w : ℕ)
      → too_big w ≡ false
      → plan_weighed A req w ≡ settle A req w (capped_context A req) (cap_warnings A req)
  unfolding plan_weighed
  plan_kept w h = rw h

  plan_unreduced :
      (w : ℕ)
      → too_big w ≡ true
      → reduce_context (fits_reduced A req w) (capped_context A req) ≡ none
      → plan_weighed A req w ≡ settle A req w (capped_context A req) (cap_warnings A req)
  unfolding plan_weighed
  plan_unreduced w h e = rw h (rw e)

  plan_reduced :
      (w r : ℕ)
      → too_big w ≡ true
      → reduce_context (fits_reduced A req w) (capped_context A req) ≡ some r
      → plan_weighed A req w
        ≡ settle A req w r (cap_warnings A req ++ (context_reduced (capped_context A req) r ∷ []))
  unfolding plan_weighed
  plan_reduced w r h e = rw h (rw e)

  settle_fits :
      (w c : ℕ) (ws : List Warning)
      → leb (fit A req w c) req.available_vram_bytes ≡ true
      → (settle A req w c ws).fits_in_vram ≡ true
  unfolding settle
  settle_fits w c ws h = ground arith

  settle_kept_fits :
      (w : ℕ) (ws : List Warning)
      → too_big w ≡ false
      → (settle A req w (capped_context A req) ws).fits_in_vram ≡ true
  unfolding settle
  settle_kept_fits w ws h = ground arith

  -- The claim at each end.
  abbrev Sound : ℕ → SizingPlan A → Type 0
  Sound w p = Settled w p × Chosen w p

  kept-Sound :
      (w : ℕ) (ws : List Warning)
      → too_big w ≡ false
      → Sound w (settle A req w (capped_context A req) ws)
  kept-Sound w ws h = (
    settle-Settled w (capped_context A req) ws,
    inl (unfold settle in refl, inl (settle_kept_fits w ws h)),
  )

  unreduced-Sound :
      (w : ℕ) (ws : List Warning)
      → Answers (fits_reduced A req w) (capped_context A req / 2) none
      → Sound w (settle A req w (capped_context A req) ws)
  unreduced-Sound w ws a = (
    settle-Settled w (capped_context A req) ws,
    inl (
      unfold settle in refl,
      inr (λ k le. no_fit w (halved (capped_context A req / 2) k) (a k le)),
    ),
  )

  reduced-Sound :
      (w r : ℕ) (ws : List Warning)
      → too_big w ≡ true
      → Answers (fits_reduced A req w) (capped_context A req / 2) (some r)
      → Sound w (settle A req w r ws)
  reduced-Sound w r ws h (k, e, le, f, before) = (
    settle-Settled w r ws,
    inr (
      settle_fits w r ws (sym (fits_reduced_lem w r) ∙ f),
      unfold settle in le,
      ground arith,
      (k, unfold settle in e, λ j lt. no_fit w (halved (capped_context A req / 2) j) (before j lt)),
    ),
  )

  by_answer :
      (w : ℕ) (o : Option ℕ)
      → too_big w ≡ true
      → reduce_context (fits_reduced A req w) (capped_context A req) ≡ o
      → Answers (fits_reduced A req w) (capped_context A req / 2) o
      → Sound w (plan_weighed A req w)
  by_answer w none h e a =
      subst (Sound w) (sym (plan_unreduced w h e)) (unreduced-Sound w (cap_warnings A req) a)
  by_answer w (some r) h e a =
      subst (Sound w) (sym (plan_reduced w r h e)) (reduced-Sound w r _ h a)

  plan_weighed_lem : (w : ℕ) → Sound w (plan_weighed A req w)
  plan_weighed_lem w = elim (Bool-cases (too_big w)) [
    | inl h ↦
        by_answer w (reduce_context (fits_reduced A req w) (capped_context A req)) h refl
          (reduce_context_lem (fits_reduced A req w) (capped_context A req))
    | inr h ↦ subst (Sound w) (sym (plan_kept w h)) (kept-Sound w (cap_warnings A req) h)
  ]

  -- A plan that is made stands on these weights.
  abbrev pub Weighs : ℕ → Type 0
  Weighs w =
      (0 < req.weight_bytes × (w ≡ req.weight_bytes))
      ⊎ ((req.weight_bytes ≡ 0)
          × ((bits : A.F) × (bits_per_weight A req.quantization ≡ some bits)
              × (w ≡ estimated_weights A req bits)))

  plan_made :
      (p : SizingPlan A) → plan A req ≡ planned p → (w : ℕ) × (p ≡ plan_weighed A req w) × Weighs w
  unfolding plan
  plan_made p h = elim (Bool-cases (ltb 0 req.weight_bytes)) [
    | inl measured ↦ (req.weight_bytes, ground arith, inl (ground arith, refl))
    | inr unmeasured ↦ elim (Option-cases (bits_per_weight A req.quantization)) [
      | inl unknown ↦ absurd (ground arith)
      | inr known ↦ (
        estimated_weights A req known.0,
        ground arith,
        inr (ground arith, (known.0, known.1, refl)),
      )
    ]
  ]

  plan-Sound :
      (p : SizingPlan A) → plan A req ≡ planned p → Sound p.weights_bytes p × Weighs p.weights_bytes
  plan-Sound p h =
      let (w, e, k) = plan_made p h in
      let s : Sound w p = subst (Sound w) (sym e) (plan_weighed_lem w) in
      subst (λ v. Sound v p × Weighs v) (sym s.0.0) (s, k)

  -- A plan's requirement and KV cache are those of the context length that it reports, at the weights
  -- that it reports, which are the measured ones if there are any and else the estimate; it claims to
  -- fit exactly if that requirement is at most the VRAM on offer, or if none is on offer.
  pub plan_required :
      (p : SizingPlan A)
      → plan A req ≡ planned p
      → let w = p.weights_bytes in
        (p.required_vram_bytes ≡ fit A req w p.context_len)
        × (p.kv_cache_bytes
            ≡ kv_bytes A req.facts p.context_len (plan_concurrency A req) (plan_kv_elem A req))
        × (p.fits_in_vram ≡ (
            if ltb 0 req.available_vram_bytes
            then leb p.required_vram_bytes req.available_vram_bytes
            else true))
        × Weighs w
  plan_required p h = let ((s, c), w) = plan-Sound p h in (s.1, s.2, s.4, w)

  capped_bounds :
      (capped_context A req ≤ plan_context A req)
      × (0 < req.facts.max_context_len → capped_context A req ≤ req.facts.max_context_len)
  unfolding capped_context
  capped_bounds = ground arith

  -- The context length of a plan is the one asked for, brought down to the model's maximum, or the
  -- longest of its successive halvings that fits, 512 or more. If the plan does not fit, no halving of
  -- 512 or more does. It is never more than what was asked for, nor than the model's maximum.
  pub plan_context_lem :
      (p : SizingPlan A)
      → plan A req ≡ planned p
      → Chosen p.weights_bytes p
        × (p.context_len ≤ plan_context A req)
        × (0 < req.facts.max_context_len → p.context_len ≤ req.facts.max_context_len)
  plan_context_lem p h =
      let ((s, c), w) = plan-Sound p h in
      let le : p.context_len ≤ capped_context A req = elim c [
        | inl kept ↦ omega arith
        | inr shorter ↦ omega (arith, halved-le (capped_context A req / 2) shorter.3.0, shorter.3.1)
      ] in
      (c, omega (arith, capped_bounds.0), λ pos. omega (arith, capped_bounds.1 pos))

  -- The sizing refuses exactly facts that do not support an estimate, and, where the weights were not
  -- measured, an unknown parameter count or an unknown quantization, in this order.
  pub plan_refusals :
      (e : PlanError)
      → (plan A req ≡ refused e) ↔ (
          (validate req.facts ≡ some e)
          ⊎ ((validate req.facts ≡ none)
              × (req.weight_bytes ≡ 0)
              × (((e ≡ params_unknown) × (A.le req.facts.params (A.lit 0 1) ≡ true))
                  ⊎ ((e ≡ unknown_quantization)
                      × (A.le req.facts.params (A.lit 0 1) ≡ false)
                      × (bits_per_weight A req.quantization ≡ none)))))
  unfolding plan
  plan_refusals e = (ground arith, ground arith)
