-- ===== src/Prelude/Order.antt =====
-- Go's stable sort and its order of strings.
pub mod Sorting
pub mod Reordered
pub mod Texts
use Prim.Native.Nat.{ℕ}
use mathlib.Core.Bool.{Bool, true, false, ◌&&◌, ◌||◌}
use mathlib.Core.List.{List, [], ◌∷◌}
use larri.Prelude.Tests.{ltb, ◌==◌, if◌then◌else◌}
use larri.Prelude.Text.{Text}

-- sort.SliceStable and sort.Float64s: elements that the order does not tell apart stay in order.
unfoldable pub insert : {A : Type 0} → (A → A → Bool) → A → List A → List A
insert less x [] = x ∷ []
insert less x (y ∷ ys) = let rest = insert less x ys in if less y x then y ∷ rest else x ∷ y ∷ ys

unfoldable pub sort_stable : {A : Type 0} → (A → A → Bool) → List A → List A
unfolding insert
sort_stable less [] = []
sort_stable less (x ∷ xs) = insert less x (sort_stable less xs)

-- `a < b` of strings.
unfoldable pub text_lt : Text → Text → Bool
text_lt [] [] = false
text_lt [] (b ∷ y) = true
text_lt (a ∷ x) [] = false
text_lt (a ∷ x) (b ∷ y) = ltb a b || ((a == b) && text_lt x y)
