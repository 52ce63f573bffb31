-- ===== src/Prelude/Float.antt =====
-- Go's float64, which antt does not have: the type and the operations that larri uses are a parameter.
-- Nothing is assumed of them here; a theorem that needs an order takes it as a hypothesis.
use Prim.Native.Nat.{ℕ, ◌+◌, ◌*◌, ◌/◌}
use mathlib.Core.Bool.{Bool}
use larri.Prelude.Tests.{ltb, leb, ◌==◌}

pub record Float : Type 1 where
  pub F : Type 0
  -- a literal, numerator over denominator
  pub lit : ℕ → ℕ → F
  -- float64(n)
  pub of_nat : ℕ → F
  pub add : F → F → F
  pub mul : F → F → F
  pub div : F → F → F
  pub lt : F → F → Bool
  pub le : F → F → Bool
  pub eq : F → F → Bool
  -- uint64(x)
  pub to_u64 : F → ℕ

-- An instance to evaluate models on: millionths, rounded down.
abbrev pub millionths : Float
millionths = record {
  F = ℕ;
  lit = λ n d. n * 1000000 / d;
  of_nat = λ n. n * 1000000;
  add = λ a b. a + b;
  mul = λ a b. a * b / 1000000;
  div = λ a b. a * 1000000 / b;
  lt = ltb;
  le = leb;
  eq = λ a b. a == b;
  to_u64 = λ a. a / 1000000;
}
