-- ===== src/Sizing/Facts.antt =====
-- internal/sizing/facts.go: the architectural facts an estimate needs.
-- Counts that Go holds in an `int` are numbers here, and `<= 0` is the test for 0.
use larri.Prelude.{ℕ, Option, none, some, ◌==◌, if◌then◌else◌}
use larri.Prelude.Text.{Text}

pub record Facts (F : Type 0) : Type 0 where
  pub params : F
  pub layers : ℕ
  pub kv_heads : ℕ
  pub head_dim : ℕ
  pub hidden_size : ℕ
  pub max_context_len : ℕ
  pub attention_heads : ℕ
  pub ref : Text
  pub revision : Text
  pub quant_method : Text
  pub active_params : F

pub data PlanError : Type 0 where
  layers_unknown kv_heads_unknown head_dim_unknown hidden_size_unknown : PlanError
  params_unknown unknown_quantization : PlanError

-- none: the facts support an estimate.
unfoldable pub validate : {F : Type 0} → Facts F → Option PlanError
validate f =
    if f.layers == 0
    then some layers_unknown
    else if f.kv_heads == 0
    then some kv_heads_unknown
    else if f.head_dim == 0
    then some head_dim_unknown
    else if f.hidden_size == 0
    then some hidden_size_unknown
    else none
