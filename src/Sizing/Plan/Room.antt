-- ===== src/Sizing/Plan/Room.antt =====
-- Plans of internal/sizing/sizing.go for one model, without a card and on one with room for it.
use larri.Prelude.{ℕ, ◌≤◌, ◌≡◌, refl, true, arith, ltb, Option-cases, Bool-cases, inl, inr}
use mathlib.Core.Path.{subst}
use larri.Prelude.Float.{Float}
use larri.Sizing.Facts.{validate}
use larri.Sizing.Quant.{bits_per_weight}
use larri.Sizing.Plan.{
  Request, SizingPlan, planned, capped_context, cap_warnings, fit, settle, plan_weighed,
  estimated_weights, plan,
}

module _ (A : Float) (req : Request A) where
  abbrev pub within : ℕ → Request A
  within avail = record req { available_vram_bytes = avail }

  fit-within : (avail w c : ℕ) → fit A (within avail) w c ≡ fit A req w c
  unfolding fit
  fit-within avail w c = refl

  -- What a plan on the card has in common with the one without it.
  abbrev pub HasRoom : SizingPlan A → SizingPlan A → Type 0
  HasRoom need placed =
      (placed.fits_in_vram ≡ true)
      × ((placed.required_vram_bytes ≡ need.required_vram_bytes)
          × ((placed.context_len ≡ need.context_len) × (placed.weights_bytes ≡ need.weights_bytes)))

  weighed_without :
      (w : ℕ)
      → req.available_vram_bytes ≡ 0
      → plan_weighed A req w ≡ settle A req w (capped_context A req) (cap_warnings A req)
  unfolding plan_weighed
  weighed_without w h = ground arith

  weighed_within :
      (avail w : ℕ)
      → fit A req w (capped_context A req) ≤ avail
      → plan_weighed A (within avail) w
        ≡ settle A (within avail) w (capped_context A req) (cap_warnings A req)
  unfolding plan_weighed capped_context cap_warnings
  weighed_within avail w h = ground (arith, fit-within avail w (capped_context A req))

  settle-HasRoom :
      (avail w c : ℕ)
      → fit A req w c ≤ avail
      → HasRoom
          (settle A req w c (cap_warnings A req))
          (settle A (within avail) w c (cap_warnings A req))
  unfolding settle
  settle-HasRoom avail w c h =
      (ground (arith, fit-within avail w c), (fit-within avail w c, (refl, refl)))

  weighed-HasRoom :
      (avail w : ℕ)
      → req.available_vram_bytes ≡ 0
      → (plan_weighed A req w).required_vram_bytes ≤ avail
      → HasRoom (plan_weighed A req w) (plan_weighed A (within avail) w)
  unfolding fit settle
  weighed-HasRoom avail w h k =
      let free = weighed_without w h in
      let room : fit A req w (capped_context A req) ≤ avail = rw free at k in
      rw (free, weighed_within avail w room) (settle-HasRoom avail w (capped_context A req) room)

  -- The two plans are made from the same weights.
  weights_of :
      (avail : ℕ) (need : SizingPlan A)
      → plan A req ≡ planned need
      → (w : ℕ) × ((plan_weighed A req w ≡ need)
          × (plan A (within avail) ≡ planned (plan_weighed A (within avail) w)))
  unfolding plan estimated_weights
  weights_of avail need e = elim (Option-cases (validate req.facts)) [
    | inr (k, v) ↦ absurd (ground arith)
    | inl v ↦ elim (Bool-cases (ltb 0 req.weight_bytes)) [
      | inl known ↦ (req.weight_bytes, (ground arith, ground arith))
      | inr unknown ↦ elim (Bool-cases (A.le req.facts.params (A.lit 0 1))) [
        | inl none_given ↦ absurd (ground arith)
        | inr given ↦ elim (Option-cases (bits_per_weight A req.quantization)) [
          | inl b ↦ absurd (ground arith)
          | inr (bits, b) ↦ (estimated_weights A req bits, (ground arith, ground arith))
        ]
      ]
    ]
  ]

  -- A plan for a card with room for the plan that was made without one needs as much memory, fits, and
  -- keeps the context length.
  pub plan-HasRoom :
      (avail : ℕ) (need placed : SizingPlan A)
      → req.available_vram_bytes ≡ 0
      → plan A req ≡ planned need
      → need.required_vram_bytes ≤ avail
      → plan A (within avail) ≡ planned placed
      → HasRoom need placed
  plan-HasRoom avail need placed h e k e' =
      let (w, (is_need, is_within)) = weights_of avail need e in
      let same : plan_weighed A (within avail) w ≡ placed = cc in
      let room : (plan_weighed A req w).required_vram_bytes ≤ avail = rw is_need k in
      subst (λ p. HasRoom p placed) is_need
        (subst (λ p. HasRoom (plan_weighed A req w) p) same (weighed-HasRoom avail w h room))
