-- ===== src/Runtime.antt =====
-- internal/runtime/runtime.go: the hardware that an engine needs.
use larri.Prelude.{ℕ, ◌==◌, Bool, ◌||◌, leb}
use larri.Prelude.Text.{Text, is_empty}
use larri.Prelude.Float.{Float}
use larri.Prelude.Search.{equal_fold}

-- runtime.Requirements. MinCUDA is times ten.
pub record Requirements : Type 0 where
  pub min_compute_capability : ℕ
  pub min_cuda : ℕ
  pub tensor_parallel : Bool
  pub vendor : Text

unfoldable pub satisfies_vendor : Requirements → Text → Bool
unfolding equal_fold
satisfies_vendor r vendor = is_empty r.vendor || is_empty vendor || equal_fold r.vendor vendor

unfoldable pub satisfies : Requirements → ℕ → Bool
satisfies r compute_capability =
    (r.min_compute_capability == 0)
    || (compute_capability == 0)
    || leb r.min_compute_capability compute_capability

module _ (Fl : Float) where
  -- SatisfiesCUDA; `int` cuts off, as `to_u64` does.
  unfoldable pub satisfies_cuda : Requirements → Fl.F → Bool
  satisfies_cuda r host =
      (r.min_cuda == 0)
      || Fl.le host (Fl.lit 0 1)
      || leb r.min_cuda (Fl.to_u64 (Fl.add (Fl.mul host (Fl.lit 10 1)) (Fl.lit 1 2)))
