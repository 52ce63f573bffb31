-- ===== src/Examples/Variants.antt =====
-- internal/sizing/variants.go: a search of the hub with four results.
use larri.Prelude.{ℕ, ◌≡◌, refl, Bool, true, false, some, List, [], ◌∷◌, All, if◌then◌else◌}
use larri.Prelude.Text.{Text, text_eq, bytes}
use larri.Prelude.Order.Reordered.{Reordered, done, swap, Reordered-refl}
use larri.Sizing.Variants.{
  Variant, SearchResult, Hub, detect_quant, extra_tokens, normalise_quant_method, find_quantised,
}
use larri.Sizing.Variants.Found.{find_quantised_order, IsSuggested, find_quantised-IsSuggested}

-- A container comes before a precision.
mlx_1 : detect_quant (bytes "mlx-community/Qwen3-4bit") [] ≡ bytes "mlx"
unfolding detect_quant
mlx_1 = refl

tag_1 : detect_quant (bytes "a/Qwen3") (bytes "x" ∷ bytes "GPTQ" ∷ []) ≡ bytes "gptq"
unfolding detect_quant
tag_1 = refl

tuned_1 : extra_tokens (bytes "x/Qwen3-Coder-abliterated-AWQ") (bytes "Qwen3") ≡ 2
unfolding extra_tokens
tuned_1 = refl

method_1 : normalise_quant_method (bytes " AWQ_Marlin") ≡ bytes "awq"
unfolding normalise_quant_method text_eq
method_1 = refl

abbrev result : Text → ℕ → SearchResult
result id n = record { id = id; downloads = n; tags = [] }

abbrev hub_1 : Hub
hub_1 = record {
  search = λ _. some (
      result (bytes "o/Qwen3") 900
      ∷ result (bytes "o/Qwen3-FP8") 5
      ∷ result (bytes "p/Qwen3-AWQ") 500
      ∷ result (bytes "p/Qwen3-fast-chat-AWQ") 800
      ∷ []);
  files = λ r.
      if text_eq r (bytes "p/Qwen3-AWQ")
      then some ((bytes "a.safetensors", 6) ∷ (bytes "b.bin", 1) ∷ [])
      else some ((bytes "m.safetensors", 9) ∷ (bytes "README.md", 70) ∷ []);
}

abbrev anything : Text → Bool
anything _ = true

-- The goroutines finish from the lightest variant to the heaviest; the candidates stand the same way.
abbrev backwards : List Variant → List Variant
backwards [] = []
backwards (v ∷ []) = v ∷ []
backwards (v ∷ u ∷ vs) = u ∷ v ∷ vs

backwards-Reordered : (vs : List Variant) → Reordered vs (backwards vs)
backwards-Reordered [] = done
backwards-Reordered (v ∷ []) = Reordered-refl (v ∷ [])
backwards-Reordered (v ∷ u ∷ vs) = swap v u vs

abbrev variants_1 : List Variant
variants_1 =
    record {
      ref = bytes "p/Qwen3-AWQ";
      quant = bytes "awq";
      weight_bytes = 7;
      downloads = 500;
      same_owner = false;
    }
    ∷ record {
      ref = bytes "o/Qwen3-FP8";
      quant = bytes "fp8";
      weight_bytes = 9;
      downloads = 5;
      same_owner = true;
    }
    ∷ []

found_1 : find_quantised hub_1 backwards (bytes "o/Qwen3") anything ≡ some variants_1
unfolding find_quantised text_eq
found_1 = refl

find_quantised_order_example :
    find_quantised hub_1 backwards (bytes "o/Qwen3") anything
    ≡ find_quantised hub_1 (λ vs. vs) (bytes "o/Qwen3") anything
unfolding text_eq
find_quantised_order_example =
    find_quantised_order hub_1 backwards (bytes "o/Qwen3") anything _ refl
      ((refl, (refl, (refl, tt))), ((refl, (refl, tt)), ((refl, tt), (tt, tt)))) backwards-Reordered

find_quantised-IsSuggested_example :
    All
      (IsSuggested hub_1 (bytes "o/Qwen3") anything (
        result (bytes "o/Qwen3") 900
        ∷ result (bytes "o/Qwen3-FP8") 5
        ∷ result (bytes "p/Qwen3-AWQ") 500
        ∷ result (bytes "p/Qwen3-fast-chat-AWQ") 800
        ∷ []))
      variants_1
find_quantised-IsSuggested_example =
    find_quantised-IsSuggested hub_1 backwards (bytes "o/Qwen3") anything _ variants_1
      backwards-Reordered refl found_1
