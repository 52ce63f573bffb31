-- ===== src/Llamacpp/Quants.antt =====
-- internal/runtime/llamacpp/gguf.go: which file of a repository's listing is taken for a quantization.
-- Of an error the kind is kept, and not the text. sort.Slice promises no order among equals; its order
-- of twelve or fewer, which is stable, is taken.
pub mod Resolved
use larri.Prelude.{
  ℕ, ◌==◌, Bool, true, false, not, ◌&&◌, ◌||◌, Option, none, some, List, [], ◌∷◌, ◌++◌, ltb, leb,
  length, drop, map, filter, if◌then◌else◌,
}
use mathlib.Core.List.{reverse}
use larri.Prelude.Text.{Text, text_eq, bytes, is_empty, to_lower, trim_space, split}
use larri.Prelude.Search.{
  base_name, has_prefix, has_suffix, trim_prefix, trim_suffix, contains_text, to_upper, fields_func,
  is_one_of,
}
use larri.Prelude.Order.{sort_stable, text_lt}
use larri.Llamacpp.Shards.{
  is_digit, Listing, size_of, shard_files, later_shard, complete_set, shard_bytes,
}

-- sizing.SplitRef: the repository, and the file's path or nothing.
unfoldable pub split_ref : Text → Text × Text
unfolding split has_suffix to_lower
split_ref ref =
    let parts = split 47 ref in
    if has_suffix (bytes ".gguf") (to_lower ref)
    then elim parts.1 [
      | name ∷ p ∷ ps ↦ (parts.0 ++ (bytes "/" ++ name), join p ps)
      | _ ↦ (ref, [])
    ]
    else (ref, [])
  where
    join : Text → List Text → Text
    join p [] = p
    join p (q ∷ qs) = p ++ (bytes "/" ++ join q qs)

abbrev float_names : List Text
float_names = bytes "F16" ∷ bytes "F32" ∷ bytes "BF16" ∷ bytes "FP16" ∷ bytes "FP32" ∷ []

unfoldable pub starts_with_digit : Text → Bool
starts_with_digit [] = false
starts_with_digit (c ∷ _) = is_digit c

-- A token in upper case that names a quantization.
unfoldable pub is_quant : Text → Bool
unfolding is_one_of has_prefix starts_with_digit
is_quant u =
    is_one_of float_names u
    || (if has_prefix (bytes "IQ") u
        then starts_with_digit (drop 2 u)
        else has_prefix (bytes "Q") u && starts_with_digit (drop 1 u))

unfoldable pub first_quant : List Text → Text
unfolding is_quant to_upper
first_quant [] = []
first_quant (t ∷ ts) =
    let rest = first_quant ts in if is_quant (to_upper t) then to_upper t else rest

-- quantTag: the last token that names one.
unfoldable pub quant_tag : Text → Text
unfolding first_quant base_name trim_suffix fields_func
quant_tag file =
    let base = trim_suffix (bytes ".gguf") (base_name file) in
    first_quant (reverse (fields_func (λ c. (c == 45) || (c == 46)) base))

unfoldable pub quant_aliases : Text → List Text
unfolding trim_prefix is_one_of
quant_aliases q =
    let p = trim_prefix (bytes "ud-") q in
    if is_one_of (bytes "fp16" ∷ bytes "f16" ∷ bytes "float16" ∷ bytes "half" ∷ []) p
    then bytes "f16" ∷ []
    else if is_one_of (bytes "fp32" ∷ bytes "f32" ∷ bytes "float32" ∷ []) p
    then bytes "f32" ∷ []
    else if is_one_of (bytes "bf16" ∷ bytes "bfloat16" ∷ []) p
    then bytes "bf16" ∷ []
    else p ∷ []

unfoldable pub contains_one_of : List Text → Text → Bool
unfolding contains_text
contains_one_of [] f = false
contains_one_of (w ∷ ws) f = contains_text w f || contains_one_of ws f

-- matchesQuant
unfoldable pub matches_quant : Text → List Text → Bool
unfolding quant_tag is_one_of contains_one_of to_lower
matches_quant file wanted =
    let tag = to_lower (quant_tag file) in
    if not (is_empty tag) then is_one_of wanted tag else contains_one_of wanted (to_lower file)

-- auxiliaryKind, as the marker that is found first.
unfoldable pub first_marker : List Text → Text → Option Text
unfolding contains_text
first_marker [] l = none
first_marker (m ∷ ms) l = let rest = first_marker ms l in if contains_text m l then some m else rest

abbrev markers : List Text
markers =
    bytes "mmproj"
    ∷ bytes "projector"
    ∷ bytes "mtp"
    ∷ bytes "lora"
    ∷ bytes "adapter"
    ∷ bytes "vocab"
    ∷ []

unfoldable pub auxiliary_kind : Text → Option Text
unfolding first_marker to_lower base_name
auxiliary_kind file = first_marker markers (to_lower (base_name file))

unfoldable pub is_auxiliary : Text → Bool
unfolding auxiliary_kind
is_auxiliary file = elim (auxiliary_kind file) [ none ↦ false | some _ ↦ true ]

-- The conditions of the loop in pickQuant.
unfoldable pub is_candidate : Text → Text → Bool
unfolding is_auxiliary matches_quant quant_aliases
is_candidate q f =
    not (later_shard f) && not (is_auxiliary f) && (is_empty q || matches_quant f (quant_aliases q))

abbrev pub shorter : Text → Text → Bool
shorter a b = ltb (length a) (length b)

unfoldable pub head_of : List Text → Option Text
head_of [] = none
head_of (f ∷ _) = some f

-- pickQuant: none is a refusal.
unfoldable pub pick_quant : List Text → Text → Option Text
unfolding is_candidate head_of
pick_quant files quant =
    let q = to_lower (trim_space quant) in
    head_of (sort_stable shorter (filter (is_candidate q) (sort_stable text_lt files)))

pub record Weights : Type 0 where
  pub file : Text
  pub size : ℕ
  pub quantization : Text

pub data Refused : Type 0 where
  no_gguf not_listed incomplete auxiliary other_quant no_quant not_found : Refused

pub data Resolution : Type 0 where
  resolved : Weights → Resolution
  refused : Refused → Resolution

unfoldable pub head_or : Text → List Text → Text
head_or d [] = d
head_or d (f ∷ _) = f

-- namedFile
unfoldable pub named_file : Text → Text → Listing → Resolution
unfolding head_or is_auxiliary matches_quant quant_aliases
named_file file quant sizes =
    let first = head_or file (shard_files file) in
    let q = to_lower (trim_space quant) in
    let tag = quant_tag first in
    elim (size_of sizes file) [
      | none ↦ refused not_listed
      | some _ ↦
          if not (complete_set sizes first)
          then refused incomplete
          else if is_auxiliary first
          then refused auxiliary
          else if not (is_empty q)
              && not (is_empty tag)
              && not (matches_quant first (quant_aliases q))
          then refused other_quant
          else if is_empty tag && is_empty (trim_space quant)
          then refused no_quant
          else resolved (record {
            file = first;
            size = shard_bytes sizes first;
            quantization = if is_empty tag then quant else tag;
          })
    ]

unfoldable pub is_gguf : Text × ℕ → Bool
unfolding has_suffix to_lower
is_gguf (f, n) = has_suffix (bytes ".gguf") (to_lower f)

-- ResolveGGUF, from the listing.
unfoldable pub resolve_gguf : Text → Text → List (Text × ℕ) → Resolution
unfolding split_ref pick_quant named_file is_gguf
resolve_gguf ref quant siblings =
    let sizes = filter is_gguf siblings in
    let files = map (λ s. s.0) sizes in
    let named = (split_ref ref).1 in
    if length files == 0
    then refused no_gguf
    else if not (is_empty named)
    then named_file named quant sizes
    else elim (pick_quant files quant) [
      | none ↦ refused not_found
      | some f ↦
          if complete_set sizes f
          then resolved (record { file = f; size = shard_bytes sizes f; quantization = quant })
          else refused incomplete
    ]
