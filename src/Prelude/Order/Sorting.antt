-- ===== src/Prelude/Order/Sorting.antt =====
-- What the stable sort keeps and brings about.
use mathlib.Core.Path.{◌≡◌}
use mathlib.Core.Bool.{Bool, true, false}
use mathlib.Core.Logic.{inl, inr}
use mathlib.Core.List.{List, [], ◌∷◌}
use larri.Prelude.Tests.{Bool-cases}
use larri.Prelude.Lists.{All, All-map, All-Among, Among, Among-All}
use larri.Prelude.Order.{insert, sort_stable}

-- Each element stands in `P` to all behind it.
abbrev pub Sorted : {A : Type 0} → (A → A → Type 0) → List A → Type 0
Sorted P [] = Unit
Sorted P (x ∷ xs) = All (P x) xs × Sorted P xs

module _ {A : Type 0} (less : A → A → Bool) (P : A → Type 0) where
  insert-All : (x : A) (ys : List A) → P x → All P ys → All P (insert less x ys)
  unfolding insert
  insert-All x [] p h = (p, tt)
  insert-All x (y ∷ ys) p h = elim (Bool-cases (less y x)) [
    | inl e ↦ rw (e) (h.0, insert-All x ys p h.1)
    | inr e ↦ rw (e) (p, h)
  ]

  All-insert : (x : A) (ys : List A) → All P (insert less x ys) → P x × All P ys
  unfolding insert
  All-insert x [] = λ h. (h.0, tt)
  All-insert x (y ∷ ys) = elim (Bool-cases (less y x)) [
    | inl e ↦ rw (e) (λ h. let k = All-insert x ys h.1 in (k.0, (h.0, k.1)))
    | inr e ↦ rw (e) (λ h. (h.0, h.1))
  ]

  pub sort_stable-All : (xs : List A) → All P xs → All P (sort_stable less xs)
  unfolding sort_stable
  sort_stable-All [] h = tt
  sort_stable-All (x ∷ xs) h = insert-All x _ h.0 (sort_stable-All xs h.1)

  pub All-sort_stable : (xs : List A) → All P (sort_stable less xs) → All P xs
  unfolding sort_stable
  All-sort_stable [] h = tt
  All-sort_stable (x ∷ xs) h =
      let k = All-insert x (sort_stable less xs) h in (k.0, All-sort_stable xs k.1)

pub sort_stable-Among :
    {A : Type 0} (less : A → A → Bool) (x : A) (xs : List A)
    → Among x xs
    → Among x (sort_stable less xs)
sort_stable-Among {A} less x xs m =
    let P = λ (y : A). Among y (sort_stable less xs) in
    Among-All P x xs m (All-sort_stable less P xs (All-Among (sort_stable less xs)))

-- A sort by `less` sorts by any order that `less` refines, where the elements are such that the order is
-- transitive across each of them.
module _ {A : Type 0} (less : A → A → Bool) (P : A → A → Type 0) (Q : A → Type 0)
    (before : (x y : A) → less y x ≡ true → P y x) (stays : (x y : A) → less y x ≡ false → P x y)
    (trans : (x y z : A) → Q y → P x y → P y z → P x z) where
  insert-Sorted : (x : A) (ys : List A) → All Q ys → Sorted P ys → Sorted P (insert less x ys)
  unfolding insert
  insert-Sorted x [] q h = (tt, tt)
  insert-Sorted x (y ∷ ys) q h = elim (Bool-cases (less y x)) [
    | inl e ↦ rw (e) (insert-All less (P y) x ys (before x y e) h.0, insert-Sorted x ys q.1 h.1)
    | inr e ↦ rw (e) ((stays x y e, All-map (λ z p. trans x y z q.0 (stays x y e) p) ys h.0), h)
  ]

  pub sort_stable-Sorted_where : (xs : List A) → All Q xs → Sorted P (sort_stable less xs)
  unfolding sort_stable
  sort_stable-Sorted_where [] q = tt
  sort_stable-Sorted_where (x ∷ xs) q =
      insert-Sorted x _ (sort_stable-All less Q xs q.1) (sort_stable-Sorted_where xs q.1)

pub sort_stable-Sorted :
    {A : Type 0} (less : A → A → Bool) (P : A → A → Type 0)
    (before : (x y : A) → less y x ≡ true → P y x) (stays : (x y : A) → less y x ≡ false → P x y)
    (trans : (x y z : A) → P x y → P y z → P x z) (xs : List A)
    → Sorted P (sort_stable less xs)
sort_stable-Sorted less P before stays trans xs =
    sort_stable-Sorted_where less P (λ _. Unit {0}) before stays (λ x y z _. trans x y z) xs
      (All-map (λ _ _. tt) xs (All-Among xs))
