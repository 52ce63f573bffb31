-- ===== src/Examples/Llamacpp.antt =====
-- internal/runtime/llamacpp/gguf.go: the choice of a file, from small listings.
use larri.Prelude.{◌≡◌, refl, true, none, some, List, [], ◌∷◌, filter, arith}
use larri.Prelude.Text.{Text, bytes, text_eq, to_lower, trim_space}
use larri.Prelude.Order.{sort_stable, text_lt}
use larri.Prelude.Search.{has_byte}
use larri.Llamacpp.Shards.{
  Listing, size_of, complete_set, shard_files, later_shard, part, pad5, parts_from, shard_bytes,
}
use larri.Llamacpp.Shards.Sets.{shard_files-part}
use larri.Llamacpp.Quants.{
  quant_tag, pick_quant, Weights, resolved, refused, incomplete, auxiliary, no_gguf, no_quant,
  resolve_gguf, split_ref,
}
use larri.Llamacpp.Quants.Resolved.{IsPick, pick_quant-IsPick, IsSound, resolve_gguf-IsSound}

tag_1 : quant_tag (bytes "Qwen3.6-27B-Q4_K_M.gguf") ≡ bytes "Q4_K_M"
unfolding quant_tag
tag_1 = refl

-- A shard's tag stands before its numbers.
tag_2 : quant_tag (bytes "dir/m-iq4_xs-00001-of-00003.gguf") ≡ bytes "IQ4_XS"
unfolding quant_tag
tag_2 = refl

tag_3 : quant_tag (bytes "plain.gguf") ≡ []
unfolding quant_tag
tag_3 = refl

ref_1 : split_ref (bytes "a/b/c/d.gguf") ≡ (bytes "a/b", bytes "c/d.gguf")
unfolding split_ref
ref_1 = refl

ref_2 : split_ref (bytes "a/b") ≡ (bytes "a/b", [])
unfolding split_ref
ref_2 = refl

abbrev files_1 : List Text
files_1 =
    bytes "m-Q8_0.gguf"
    ∷ bytes "m-Q4_0-x.gguf"
    ∷ bytes "mmproj-Q4_0.gguf"
    ∷ bytes "m-Q4_0.gguf"
    ∷ []

pick_1 : pick_quant files_1 (bytes " q4_0") ≡ some (bytes "m-Q4_0.gguf")
unfolding pick_quant filter sort_stable text_lt trim_space later_shard
pick_1 = refl

pick_2 : pick_quant files_1 (bytes "q5_0") ≡ none
unfolding pick_quant filter sort_stable text_lt trim_space later_shard
pick_2 = refl

pick_quant-IsPick_example : IsPick files_1 (bytes " q4_0") (bytes "m-Q4_0.gguf")
pick_quant-IsPick_example = pick_quant-IsPick files_1 (bytes " q4_0") (bytes "m-Q4_0.gguf") pick_1

abbrev two_parts : Listing
two_parts =
    (bytes "README.md", 9)
    ∷ (bytes "q/m-Q4_0-00001-of-00002.gguf", 700)
    ∷ (bytes "q/m-Q4_0-00002-of-00002.gguf", 300)
    ∷ (bytes "mmproj.gguf", 5)
    ∷ []

abbrev weights_1 : Weights
weights_1 = record {
  file = bytes "q/m-Q4_0-00001-of-00002.gguf";
  size = 1000;
  quantization = bytes "Q4_0";
}

whole_1 : resolve_gguf (bytes "a/b") (bytes "Q4_0") two_parts ≡ resolved weights_1
unfolding resolve_gguf filter sort_stable text_lt trim_space later_shard complete_set shard_bytes
    size_of
whole_1 = refl

-- Naming a later part names the set.
whole_2 : resolve_gguf (bytes "a/b/q/m-Q4_0-00002-of-00002.gguf") [] two_parts ≡ resolved weights_1
unfolding resolve_gguf filter sort_stable text_lt trim_space later_shard complete_set shard_bytes
    size_of
whole_2 = refl

named_aux : resolve_gguf (bytes "a/b/mmproj.gguf") (bytes "Q4_0") two_parts ≡ refused auxiliary
unfolding resolve_gguf filter sort_stable text_lt trim_space later_shard complete_set shard_bytes
    size_of
named_aux = refl

no_part :
    resolve_gguf (bytes "a/b") [] ((bytes "m-00001-of-00002.gguf", 3) ∷ []) ≡ refused incomplete
unfolding resolve_gguf filter sort_stable text_lt trim_space later_shard complete_set shard_bytes
    size_of
no_part = refl

none_1 : resolve_gguf (bytes "a/b") [] ((bytes "model.safetensors", 3) ∷ []) ≡ refused no_gguf
unfolding resolve_gguf filter sort_stable text_lt trim_space later_shard complete_set shard_bytes
    size_of
none_1 = refl

unnamed_1 : resolve_gguf (bytes "a/b/m.gguf") [] ((bytes "m.gguf", 3) ∷ []) ≡ refused no_quant
unfolding resolve_gguf filter sort_stable text_lt trim_space later_shard complete_set shard_bytes
    size_of
unnamed_1 = refl

resolve_gguf-IsSound_example : IsSound two_parts weights_1
resolve_gguf-IsSound_example =
    resolve_gguf-IsSound (bytes "a/b") (bytes "Q4_0") two_parts weights_1 whole_1

shard_files-part_example :
    (shard_files (bytes "q/m-00002-of-00003.gguf")
      ≡ bytes "q/m-00001-of-00003.gguf"
        ∷ bytes "q/m-00002-of-00003.gguf"
        ∷ bytes "q/m-00003-of-00003.gguf"
        ∷ [])
    × (later_shard (bytes "q/m-00002-of-00003.gguf") ≡ true)
unfolding part pad5 parts_from has_byte text_eq to_lower
shard_files-part_example =
    shard_files-part (bytes "q/m") 3 46 103 103 117 102 refl refl 2 (omega arith) (omega arith)
      (omega arith)
