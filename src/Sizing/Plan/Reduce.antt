-- ===== src/Sizing/Plan/Reduce.antt =====
-- The search of reduceContext in internal/sizing/sizing.go.
use larri.Prelude.{
  ℕ, zero, suc, ◌/◌, ◌≤◌, ◌<◌, ◌≡◌, inl, inr, refl, Bool, true, false, Option, none, some, arith,
  ltb, Bool-cases,
}
use larri.Sizing.Plan.{reduce_loop, reduce_context}

-- `c` is `from` halved some times, and a halving step away from it.
abbrev pub halved : ℕ → ℕ → ℕ
halved from zero = from
halved from (suc k) = halved (from / 2) k

-- The answer of a search that starts at `c`: the first halving that fits and is 512 or more, or none if
-- there is no such halving.
abbrev pub Answers : (ℕ → Bool) → ℕ → Option ℕ → Type 0
Answers fits c none = (k : ℕ) → 512 ≤ halved c k → fits (halved c k) ≡ false
Answers fits c (some r) =
    (k : ℕ) × (r ≡ halved c k)
    × (512 ≤ r)
    × (fits r ≡ true)
    × ((j : ℕ) → j < k → fits (halved c j) ≡ false)

halved-le : (c k : ℕ) → halved c k ≤ c
halved-le c zero = omega arith
halved-le c (suc k) = omega (arith, halved-le (c / 2) k)

too_short : (fits : ℕ → Bool) (c : ℕ) → c < 512 → Answers fits c none
too_short fits c h k le = absurd (omega (arith, halved-le c k))

none_fits :
    (fits : ℕ → Bool) (c k : ℕ)
    → fits c ≡ false
    → Answers fits (c / 2) none
    → 512 ≤ halved c k
    → fits (halved c k) ≡ false
none_fits fits c zero h a le = h
none_fits fits c (suc k) h a le = a k le

none_before :
    (fits : ℕ → Bool) (c k j : ℕ)
    → fits c ≡ false
    → ((i : ℕ) → i < k → fits (halved (c / 2) i) ≡ false)
    → j < suc k
    → fits (halved c j) ≡ false
none_before fits c k zero h a lt = h
none_before fits c k (suc j) h a lt = a j (omega arith)

keep_looking :
    (fits : ℕ → Bool) (c : ℕ) (o : Option ℕ)
    → fits c ≡ false
    → Answers fits (c / 2) o
    → Answers fits c o
keep_looking fits c none h a = λ k. none_fits fits c k h a
keep_looking fits c (some r) h (k, e, le, f, before) =
    (suc k, e, le, f, λ j. none_before fits c k j h before)

loop-Answers : (fits : ℕ → Bool) (fuel c : ℕ) → c ≤ fuel → Answers fits c (reduce_loop fits fuel c)
unfolding reduce_loop
loop-Answers fits zero c h = too_short fits c (omega arith)
loop-Answers fits (suc fuel) c h = elim (Bool-cases (ltb c 512)) [
  | inl short ↦ rw short (too_short fits c (ground arith))
  | inr long ↦ elim (Bool-cases (fits c)) [
    | inl yes_fits ↦
        rw (long, yes_fits) (zero, refl, ground arith, yes_fits, λ j lt. absurd (omega arith))
    | inr no_fits ↦
        rw (long, no_fits)
          (keep_looking fits c (reduce_loop fits fuel (c / 2)) no_fits
            (loop-Answers fits fuel (c / 2) (omega arith)))
  ]
]

-- reduceContext looks at the halvings of the requested context below it, and its fuel is enough to see
-- all that are 512 or more.
pub reduce_context_lem :
    (fits : ℕ → Bool) (from : ℕ) → Answers fits (from / 2) (reduce_context fits from)
unfolding reduce_context
reduce_context_lem fits from = loop-Answers fits from (from / 2) (omega arith)
