-- ===== src/Sizing/Variants.antt =====
-- internal/sizing/variants.go: the search for a quantized build of a model. What the hub answers is a record. The
-- goroutines that measure the candidates append in the order in which they finish, which is a parameter.
pub mod Found
use larri.Prelude.{
  ℕ, zero, suc, ◌+◌, ◌%◌, ◌^◌, ◌==◌, Bool, true, false, not, ◌&&◌, ◌||◌, Option, none, some, List,
  [], ◌∷◌, ◌++◌, ltb, take, filter, if◌then◌else◌,
}
use larri.Prelude.Text.{Text, text_eq, bytes, is_empty, trim_space, to_lower, split}
use larri.Prelude.Search.{
  base_name, has_suffix, contains_text, fields_func, replace_text, equal_fold, is_one_of,
}
use larri.Prelude.Order.{sort_stable, text_lt}

-- The cases of the switch in NormaliseQuantMethod.
abbrev quant_methods : List (Text × Text)
quant_methods =
    (bytes "bitsandbytes", bytes "bitsandbytes")
    ∷ (bytes "bnb", bytes "bitsandbytes")
    ∷ (bytes "awq", bytes "awq")
    ∷ (bytes "awq_marlin", bytes "awq")
    ∷ (bytes "gptq", bytes "gptq")
    ∷ (bytes "gptq_marlin", bytes "gptq")
    ∷ (bytes "auto_gptq", bytes "gptq")
    ∷ (bytes "auto-round", bytes "int4")
    ∷ (bytes "auto_round", bytes "int4")
    ∷ (bytes "autoround", bytes "int4")
    ∷ (bytes "fp8", bytes "fp8")
    ∷ (bytes "mxfp4", bytes "mxfp4")
    ∷ (bytes "nvfp4", bytes "nvfp4")
    ∷ (bytes "gguf", bytes "gguf")
    ∷ []

unfoldable pub scheme_in : List (Text × Text) → Text → Text
scheme_in [] m = []
scheme_in ((name, scheme) ∷ table) m = if text_eq m name then scheme else scheme_in table m

unfoldable pub normalise_quant_method : Text → Text
unfolding scheme_in to_lower trim_space
normalise_quant_method m = scheme_in quant_methods (to_lower (trim_space m))

pub record Variant : Type 0 where
  pub ref : Text
  pub quant : Text
  pub weight_bytes : ℕ
  pub downloads : ℕ
  pub same_owner : Bool

abbrev quant_markers : List (Text × Text)
quant_markers =
    (bytes "gguf", bytes "gguf")
    ∷ (bytes "mlx", bytes "mlx")
    ∷ (bytes "bitsandbytes", bytes "bitsandbytes")
    ∷ (bytes "bnb", bytes "bitsandbytes")
    ∷ (bytes "awq", bytes "awq")
    ∷ (bytes "gptq", bytes "gptq")
    ∷ (bytes "autoround", bytes "int4")
    ∷ (bytes "nvfp4", bytes "nvfp4")
    ∷ (bytes "mxfp4", bytes "mxfp4")
    ∷ (bytes "fp8", bytes "fp8")
    ∷ (bytes "int8", bytes "int8")
    ∷ (bytes "8bit", bytes "int8")
    ∷ (bytes "int4", bytes "int4")
    ∷ (bytes "4bit", bytes "int4")
    ∷ []

unfoldable pub marked_in : List (Text × Text) → Text → Text
unfolding contains_text
marked_in [] hay = []
marked_in ((marker, quant) ∷ table) hay =
    if contains_text marker hay then quant else marked_in table hay

unfoldable pub with_tags : Text → List Text → Text
unfolding to_lower
with_tags hay [] = hay
with_tags hay (t ∷ ts) = with_tags (hay ++ (bytes " " ++ to_lower t)) ts

unfoldable pub detect_quant : Text → List Text → Text
unfolding marked_in with_tags to_lower
detect_quant ref tags = marked_in quant_markers (with_tags (to_lower ref) tags)

unfoldable pub looks_like_same_model : Text → Text → Bool
unfolding contains_text base_name to_lower
looks_like_same_model candidate base =
    contains_text (to_lower base) (to_lower (base_name candidate))

abbrev packaging_words : List Text
packaging_words =
    bytes "gguf"
    ∷ bytes "mlx"
    ∷ bytes "awq"
    ∷ bytes "gptq"
    ∷ bytes "autoround"
    ∷ bytes "nvfp4"
    ∷ bytes "mxfp4"
    ∷ bytes "fp8"
    ∷ bytes "fp16"
    ∷ bytes "bf16"
    ∷ bytes "int4"
    ∷ bytes "int8"
    ∷ bytes "4bit"
    ∷ bytes "8bit"
    ∷ bytes "w4a16"
    ∷ bytes "quantized"
    ∷ bytes "quantised"
    ∷ bytes "quant"
    ∷ bytes "imatrix"
    ∷ bytes "i1"
    ∷ bytes "gs128"
    ∷ bytes "hf"
    ∷ bytes "v1"
    ∷ bytes "v2"
    ∷ []

unfoldable pub count_extra : List Text → ℕ
unfolding is_one_of
count_extra [] = 0
count_extra (t ∷ ts) =
    let rest = count_extra ts in
    if is_empty t || is_one_of packaging_words t then rest else rest + 1

unfoldable pub extra_tokens : Text → Text → ℕ
unfolding count_extra fields_func replace_text base_name to_lower
extra_tokens candidate base =
    let name = replace_text (to_lower base) (bytes " ") (to_lower (base_name candidate)) in
    count_extra (fields_func (λ c. (c == 45) || (c == 95) || (c == 46) || (c == 32)) name)

pub record SearchResult : Type 0 where
  pub id : Text
  pub downloads : ℕ
  pub tags : List Text

-- weightBytes: the total so far, and whether a file is no pickle; uint64 wraps.
unfoldable pub weight_bytes_from : List (Text × ℕ) → ℕ → Bool → ℕ × Bool
unfolding has_suffix
weight_bytes_from [] total safe = (total, safe)
weight_bytes_from ((name, size) ∷ files) total safe =
    let is_safe = has_suffix (bytes ".safetensors") name || has_suffix (bytes ".gguf") name in
    weight_bytes_from files
      (if is_safe || has_suffix (bytes ".bin") name then (total + size) % 2 ^ 64 else total)
      (is_safe || safe)

-- The hub: what a search for a name gives, and the files of a repository; none is a failure.
pub record Hub : Type 0 where
  pub search : Text → Option (List SearchResult)
  pub files : Text → Option (List (Text × ℕ))

unfoldable pub is_build_of : Text → (Text → Bool) → SearchResult → Bool
unfolding equal_fold looks_like_same_model detect_quant extra_tokens
is_build_of ref accept r =
    let q = detect_quant r.id r.tags in
    not (equal_fold r.id ref)
    && looks_like_same_model r.id (base_name ref)
    && not (is_empty q)
    && accept q
    && not (ltb 1 (extra_tokens r.id (base_name ref)))

abbrev pub more_downloads : SearchResult → SearchResult → Bool
more_downloads a b = ltb b.downloads a.downloads

abbrev pub min_variant_downloads : ℕ
min_variant_downloads = 100

-- strings.Cut at the first slash, of which the owner is kept.
unfoldable pub owner_of : Text → Text
unfolding split
owner_of ref = (split 47 ref).0

-- What one goroutine appends.
unfoldable pub measured : Hub → Text → SearchResult → Option Variant
unfolding weight_bytes_from detect_quant owner_of equal_fold
measured hub ref r = elim (hub.files r.id) [
  | none ↦ none
  | some files ↦
      let t = weight_bytes_from files 0 false in
      let same = equal_fold (owner_of r.id) (owner_of ref) in
      if (t.0 == 0) || not t.1
      then none
      else if not same && ltb r.downloads min_variant_downloads
      then none
      else some (record {
        ref = r.id;
        quant = detect_quant r.id r.tags;
        weight_bytes = t.0;
        downloads = r.downloads;
        same_owner = same;
      })
]

unfoldable pub measure_all : Hub → Text → List SearchResult → List Variant
unfolding measured
measure_all hub ref [] = []
measure_all hub ref (r ∷ rs) =
    let rest = measure_all hub ref rs in
    elim (measured hub ref r) [ none ↦ rest | some v ↦ v ∷ rest ]

unfoldable pub lighter : Variant → Variant → Bool
unfolding text_lt
lighter a b =
    if not (a.weight_bytes == b.weight_bytes)
    then ltb a.weight_bytes b.weight_bytes
    else if not (a.downloads == b.downloads)
    then ltb b.downloads a.downloads
    else text_lt a.ref b.ref

-- The candidates of a search that are measured.
unfoldable pub candidates : Text → (Text → Bool) → List SearchResult → List SearchResult
unfolding is_build_of filter sort_stable
candidates ref accept found =
    take 6 (sort_stable more_downloads (filter (is_build_of ref accept) found))

-- FindQuantised. `finished` puts what is appended into the order in which the goroutines finish.
unfoldable pub find_quantised :
    Hub → (List Variant → List Variant) → Text → (Text → Bool) → Option (List Variant)
unfolding candidates measure_all lighter sort_stable
find_quantised hub finished ref accept = elim (hub.search (base_name ref)) [
  | none ↦ none
  | some found ↦
      some (sort_stable lighter (finished (measure_all hub ref (candidates ref accept found))))
]
