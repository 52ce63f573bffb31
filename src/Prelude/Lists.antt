-- ===== src/Prelude/Lists.antt =====
-- Lists measured and indexed by native numbers, under the library's names, and the predicate
-- that holds of each element.
use Prim.Native.Nat.{ℕ, zero, suc, ◌+◌, min}
use mathlib.Core.Path.{subst, ◌≡◌, refl}
use mathlib.Core.List.{List, [], ◌∷◌, ◌++◌}
use mathlib.Core.Logic.{◌⊎◌, inl, inr}
use mathlib.Core.Bool.{Bool, true}
use mathlib.Core.Option.{Option, none, some}
use native.Mathlib.Omega.{arith}
use larri.Prelude.Tests.{Bool-cases, if◌then◌else◌}

module _ {ℓ} {A : Type ℓ} where
  abbrev pub length : List A → ℕ
  length [] = 0
  length (x ∷ xs) = suc (length xs)

  abbrev pub get_elem? : List A → ℕ → Option A
  get_elem? [] i = none
  get_elem? (x ∷ xs) zero = some x
  get_elem? (x ∷ xs) (suc i) = get_elem? xs i

  abbrev pub get_or : List A → ℕ → A → A
  get_or [] i d = d
  get_or (x ∷ xs) zero d = x
  get_or (x ∷ xs) (suc i) d = get_or xs i d

  abbrev pub take : ℕ → List A → List A
  take zero xs = []
  take (suc n) [] = []
  take (suc n) (x ∷ xs) = x ∷ take n xs

  abbrev pub drop : ℕ → List A → List A
  drop zero xs = xs
  drop (suc n) [] = []
  drop (suc n) (x ∷ xs) = drop n xs

  pub length-append : (xs ys : List A) → length (xs ++ ys) ≡ length xs + length ys
  length-append [] ys = omega arith
  length-append (x ∷ xs) ys = omega (arith, length-append xs ys)

  pub length-take : (n : ℕ) (xs : List A) → length (take n xs) ≡ min n (length xs)
  length-take zero xs = omega arith
  length-take (suc n) [] = omega arith
  length-take (suc n) (x ∷ xs) = omega (arith, length-take n xs)

abbrev pub All {ℓ κ} : {A : Type ℓ} → (A → Type κ) → List A → Type κ
All P [] = Unit
All P (y ∷ rest) = P y × All P rest

pub take-All : {A : Type 0} (n : ℕ) (P : A → Type 0) (xs : List A) → All P xs → All P (take n xs)
take-All zero P xs h = tt
take-All (suc n) P [] h = tt
take-All (suc n) P (x ∷ xs) h = (h.0, take-All n P xs h.1)

module _ {A : Type 0} where
  -- An element equal to `x` stands in the list.
  abbrev pub Among : A → List A → Type 0
  Among x [] = ⊥
  Among x (y ∷ ys) = (y ≡ x) ⊎ Among x ys

  pub All-map : {P Q : A → Type 0} → ((x : A) → P x → Q x) → (xs : List A) → All P xs → All Q xs
  All-map f [] h = tt
  All-map f (x ∷ xs) h = (f x h.0, All-map f xs h.1)

  pub All-Among : (xs : List A) → All (λ x. Among x xs) xs
  All-Among [] = tt
  All-Among (x ∷ xs) = (inl refl, All-map (λ y m. inr m) xs (All-Among xs))

  pub Among-All : (Q : A → Type 0) (x : A) (xs : List A) → Among x xs → All Q xs → Q x
  Among-All Q x [] m h = absurd m
  Among-All Q x (y ∷ ys) (inl e) h = subst Q e h.0
  Among-All Q x (y ∷ ys) (inr m) h = Among-All Q x ys m h.1

module _ {A : Type 0} (p : A → Bool) where
  -- The library's `filter` takes a decision.
  unfoldable pub filter : List A → List A
  filter [] = []
  filter (x ∷ xs) = let rest = filter xs in if p x then x ∷ rest else rest

  -- What is kept passes, and whatever held of the list holds of it.
  pub filter-All :
      (P : A → Type 0) (xs : List A) → All P xs → All (λ x. (p x ≡ true) × P x) (filter xs)
  unfolding filter
  filter-All P [] h = tt
  filter-All P (x ∷ xs) h = elim (Bool-cases (p x)) [
    | inl e ↦ rw e ((e, h.0), filter-All P xs h.1)
    | inr e ↦ rw e (filter-All P xs h.1)
  ]

  -- What holds of all that is kept holds of all that passes.
  pub All-filter :
      (P : A → Type 0) (xs : List A) → All P (filter xs) → All (λ x. p x ≡ true → P x) xs
  unfolding filter
  All-filter P [] = λ h. tt
  All-filter P (x ∷ xs) = elim (Bool-cases (p x)) [
    | inl e ↦ rw e (λ h. (λ q. h.0, All-filter P xs h.1))
    | inr e ↦ rw e (λ h. (λ q. absurd (cc q), All-filter P xs h))
  ]
