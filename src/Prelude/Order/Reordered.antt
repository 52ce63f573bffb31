-- ===== src/Prelude/Order/Reordered.antt =====
-- A list in another order, and the sort that does not tell the two apart.
use Prim.Native.Nat.{ℕ, zero, suc}
use mathlib.Core.Path.{◌≡◌, refl, sym, ap, ◌∙◌}
use mathlib.Core.Bool.{Bool, true, false}
use mathlib.Core.Logic.{◌⊎◌, inl, inr}
use mathlib.Core.List.{List, [], ◌∷◌}
use native.Mathlib.Omega.{arith}
use larri.Prelude.Tests.{Bool-cases}
use larri.Prelude.Lists.{All, All-map, filter, filter-All, take, take-All}
use larri.Prelude.Order.{insert, sort_stable}

pub data Reordered {A : Type 0} : List A → List A → Type 0 where
  done : Reordered [] []
  keep : (x : A) {xs ys : List A} → Reordered xs ys → Reordered (x ∷ xs) (x ∷ ys)
  swap : (x y : A) (xs : List A) → Reordered (x ∷ y ∷ xs) (y ∷ x ∷ xs)
  both : {xs ys zs : List A} → Reordered xs ys → Reordered ys zs → Reordered xs zs

pub Reordered-refl : {A : Type 0} (xs : List A) → Reordered xs xs
Reordered-refl [] = done
Reordered-refl (x ∷ xs) = keep x (Reordered-refl xs)

pub Reordered-All :
    {A : Type 0} (P : A → Type 0) {xs ys : List A} → Reordered xs ys → All P xs → All P ys
Reordered-All P done h = tt
Reordered-All P (keep x r) h = (h.0, Reordered-All P r h.1)
Reordered-All P (swap x y xs) h = (h.1.0, (h.0, h.1.1))
Reordered-All P (both r s) h = Reordered-All P s (Reordered-All P r h)

-- Any two elements, at different places, are told apart.
abbrev pub Apart : {A : Type 0} → (A → A → Type 0) → List A → Type 0
Apart P [] = Unit
Apart P (x ∷ xs) = All (P x) xs × Apart P xs

module _ {A : Type 0} (P : A → A → Type 0) (symm : (x y : A) → P x y → P y x) where
  pub Reordered-Apart : {xs ys : List A} → Reordered xs ys → Apart P xs → Apart P ys
  Reordered-Apart done h = tt
  Reordered-Apart (keep x r) h = (Reordered-All (P x) r h.0, Reordered-Apart r h.1)
  Reordered-Apart (swap x y xs) h = ((symm x y h.0.0, h.1.0), (h.0.1, h.1.1))
  Reordered-Apart (both r s) h = Reordered-Apart s (Reordered-Apart r h)

module _ {A : Type 0} (less : A → A → Bool) (asym : (x y : A) → less x y ≡ true → less y x ≡ false)
    (trans : (x y z : A) → less x y ≡ true → less y z ≡ true → less x z ≡ true) where
  insert_before :
      (x y : A) (l : List A)
      → less x y ≡ true
      → insert less x (insert less y l) ≡ insert less y (insert less x l)
  unfolding insert
  insert_before x y [] h = let g = asym x y h in ground (arith, g, h)
  insert_before x y (z ∷ l) h =
      let g = asym x y h in
      elim (Bool-cases (less z x)) [
        | inl e ↦ ground (arith, e, trans z x y e h, insert_before x y l h)
        | inr e ↦ elim (Bool-cases (less z y)) [
          | inl e' ↦ ground (arith, e, e', h, g)
          | inr e' ↦ ground (arith, e, e', h, g)
        ]
      ]

  abbrev pub IsOrdered : A → A → Type 0
  IsOrdered x y = (less x y ≡ true) ⊎ (less y x ≡ true)

  -- An order that tells any two of the elements apart leaves the sort no choice.
  pub sort_stable-Reordered :
      {xs ys : List A}
      → Reordered xs ys
      → Apart IsOrdered xs
      → sort_stable less xs ≡ sort_stable less ys
  unfolding sort_stable
  sort_stable-Reordered done h = refl
  sort_stable-Reordered (keep x r) h = ap (insert less x) (sort_stable-Reordered r h.1)
  sort_stable-Reordered (swap x y xs) h = elim h.0.0 [
    | inl e ↦ insert_before x y (sort_stable less xs) e
    | inr e ↦ sym (insert_before y x (sort_stable less xs) e)
  ]
  sort_stable-Reordered (both r s) h =
      sort_stable-Reordered r h ∙ sort_stable-Reordered s (Reordered-Apart IsOrdered flipped r h)
    where
      flipped : (x y : A) → IsOrdered x y → IsOrdered y x
      flipped x y (inl e) = inr e
      flipped x y (inr e) = inl e

module _ {A : Type 0} (less : A → A → Bool) where
  insert-Reordered : (x : A) (l : List A) → Reordered (x ∷ l) (insert less x l)
  unfolding insert
  insert-Reordered x [] = keep x done
  insert-Reordered x (y ∷ l) = elim (Bool-cases (less y x)) [
    | inl e ↦ rw e (both (swap x y l) (keep y (insert-Reordered x l)))
    | inr e ↦ rw e (Reordered-refl (x ∷ y ∷ l))
  ]

  pub Reordered-sort_stable : (xs : List A) → Reordered xs (sort_stable less xs)
  unfolding sort_stable
  Reordered-sort_stable [] = done
  Reordered-sort_stable (x ∷ xs) =
      both (keep x (Reordered-sort_stable xs)) (insert-Reordered x (sort_stable less xs))

module _ {A : Type 0} (P : A → A → Type 0) where
  pub filter-Apart : (p : A → Bool) (xs : List A) → Apart P xs → Apart P (filter p xs)
  unfolding filter
  filter-Apart p [] h = tt
  filter-Apart p (x ∷ xs) h = elim (Bool-cases (p x)) [
    | inl e ↦
        rw e (All-map (λ y k. k.1) (filter p xs) (filter-All p (P x) xs h.0), filter-Apart p xs h.1)
    | inr e ↦ rw e (filter-Apart p xs h.1)
  ]

  pub take-Apart : (n : ℕ) (xs : List A) → Apart P xs → Apart P (take n xs)
  take-Apart zero xs h = tt
  take-Apart (suc n) [] h = tt
  take-Apart (suc n) (x ∷ xs) h = (take-All n (P x) xs h.0, take-Apart n xs h.1)
