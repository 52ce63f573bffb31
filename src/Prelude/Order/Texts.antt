-- ===== src/Prelude/Order/Texts.antt =====
-- The order of Go strings is a strict one, and total.
use mathlib.Core.Path.{◌≡◌, refl}
use mathlib.Core.Bool.{true, false}
use mathlib.Core.Logic.{◌⊎◌, inl, inr}
use mathlib.Core.List.{[], ◌∷◌}
use native.Mathlib.Omega.{arith}
use larri.Prelude.Text.{Text, text_eq}
use larri.Prelude.Order.{text_lt}

pub text_lt_asym : (x y : Text) → text_lt x y ≡ true → text_lt y x ≡ false
unfolding text_lt
text_lt_asym [] [] h = cc
text_lt_asym [] (b ∷ y) h = cc
text_lt_asym (a ∷ x) [] h = cc
text_lt_asym (a ∷ x) (b ∷ y) h = ground (arith, text_lt_asym x y)

pub text_lt_trans : (x y z : Text) → text_lt x y ≡ true → text_lt y z ≡ true → text_lt x z ≡ true
unfolding text_lt
text_lt_trans [] [] z h k = cc
text_lt_trans [] (b ∷ y) [] h k = cc
text_lt_trans [] (b ∷ y) (c ∷ z) h k = refl
text_lt_trans (a ∷ x) [] z h k = cc
text_lt_trans (a ∷ x) (b ∷ y) [] h k = cc
text_lt_trans (a ∷ x) (b ∷ y) (c ∷ z) h k = ground (arith, text_lt_trans x y z)

pub text_lt_total : (x y : Text) → text_eq x y ≡ false → (text_lt x y ≡ true) ⊎ (text_lt y x ≡ true)
unfolding text_lt text_eq
text_lt_total [] [] h = cc
text_lt_total [] (b ∷ y) h = inl refl
text_lt_total (a ∷ x) [] h = inr refl
text_lt_total (a ∷ x) (b ∷ y) h = ground (arith, text_lt_total x y)
