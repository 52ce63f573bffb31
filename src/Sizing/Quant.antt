-- ===== src/Sizing/Quant.antt =====
-- internal/sizing/quant.go: the average number of bits that a weight takes under a quantization.
use larri.Prelude.{ℕ, Option, none, some, List, [], ◌∷◌, if◌then◌else◌}
use larri.Prelude.Text.{Text, text_eq, bytes, is_empty, to_lower, trim_space}
use larri.Prelude.Float.{Float}

-- The table of `quantBits`, in hundredths of a bit.
abbrev quant_bits : List (Text × ℕ)
quant_bits =
    (bytes "fp32", 3200)
    ∷ (bytes "f32", 3200)
    ∷ (bytes "float32", 3200)
    ∷ (bytes "fp16", 1600)
    ∷ (bytes "f16", 1600)
    ∷ (bytes "float16", 1600)
    ∷ (bytes "half", 1600)
    ∷ (bytes "bf16", 1600)
    ∷ (bytes "bfloat16", 1600)
    ∷ (bytes "fp8", 800)
    ∷ (bytes "f8", 800)
    ∷ (bytes "fp8_e4m3", 800)
    ∷ (bytes "fp8_e5m2", 800)
    ∷ (bytes "int8", 800)
    ∷ (bytes "w8a8", 800)
    ∷ (bytes "awq", 425)
    ∷ (bytes "awq-int4", 425)
    ∷ (bytes "gptq-int4", 425)
    ∷ (bytes "gptq", 425)
    ∷ (bytes "int4", 425)
    ∷ (bytes "w4a16", 425)
    ∷ (bytes "q8_0", 850)
    ∷ (bytes "q6_k", 656)
    ∷ (bytes "q5_k_m", 567)
    ∷ (bytes "q5_k_s", 552)
    ∷ (bytes "q5_0", 550)
    ∷ (bytes "q5_1", 600)
    ∷ (bytes "q4_k_m", 485)
    ∷ (bytes "q4_k_s", 458)
    ∷ (bytes "q4_0", 455)
    ∷ (bytes "q4_1", 500)
    ∷ (bytes "q3_k_m", 391)
    ∷ (bytes "q3_k_s", 350)
    ∷ (bytes "q3_k_l", 427)
    ∷ (bytes "q2_k", 335)
    ∷ (bytes "iq4_nl", 450)
    ∷ (bytes "iq4_xs", 425)
    ∷ (bytes "iq3_m", 366)
    ∷ (bytes "iq3_s", 344)
    ∷ (bytes "iq3_xs", 330)
    ∷ (bytes "iq3_xxs", 306)
    ∷ (bytes "iq2_m", 270)
    ∷ (bytes "iq2_s", 250)
    ∷ (bytes "iq2_xs", 231)
    ∷ (bytes "iq2_xxs", 206)
    ∷ (bytes "iq1_m", 175)
    ∷ (bytes "iq1_s", 156)
    ∷ (bytes "q2_k_xl", 351)
    ∷ (bytes "ud-q2_k_xl", 351)
    ∷ (bytes "q3_k_xl", 400)
    ∷ (bytes "ud-q3_k_xl", 400)
    ∷ (bytes "q4_k_xl", 495)
    ∷ (bytes "ud-q4_k_xl", 495)
    ∷ (bytes "q5_k_xl", 703)
    ∷ (bytes "ud-q5_k_xl", 703)
    ∷ (bytes "q6_k_xl", 752)
    ∷ (bytes "ud-q6_k_xl", 752)
    ∷ (bytes "ud-iq1_s", 322)
    ∷ (bytes "ud-iq1_m", 331)
    ∷ (bytes "ud-iq3_xxs", 364)
    ∷ (bytes "ud-iq4_xs", 416)
    ∷ []

unfoldable pub bits_in : Text → List (Text × ℕ) → Option ℕ
bits_in q [] = none
bits_in q ((name, b) ∷ table) = if text_eq name q then some b else bits_in q table

-- none is the error: a quantization that the table does not know.
unfoldable pub bits_per_weight : (A : Float) → Text → Option A.F
unfolding bits_in to_lower trim_space
bits_per_weight A quant =
    let q = to_lower (trim_space quant) in
    if is_empty q
    then some (A.lit 16 1)
    else elim (bits_in q quant_bits) [ none ↦ none | some b ↦ some (A.lit b 100) ]
