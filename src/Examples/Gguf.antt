-- ===== src/Examples/Gguf.antt =====
-- internal/gguf/gguf.go: a small file, whole and cut.
use larri.Prelude.{
  ℕ, ◌+◌, ◌*◌, ◌^◌, ◌≤◌, ◌≡◌, ◌≢◌, refl, none, some, [], ◌∷◌, ◌++◌, List, map, length, take, drop,
  All, arith,
}
use larri.Prelude.Text.{Text, text_eq, bytes}
use larri.Prelude.Int.{negsuc}
use larri.Gguf.{
  string_of, uint, int, text, strings_skipped, File, parsed, fixed_width, parse, arch_uint,
}
use larri.Gguf.Prefix.{Continues, parse-Continues}
use larri.Gguf.Consumed.{parse_bounds}
use larri.Gguf.Written.{
  write_le, write_str, write_strs, Meta, of_scalar, of_text, of_strings, write_value,
}
use larri.Gguf.RoundTrip.{
  write_entry, write_entries, write_file, IsEntry, read_of, parse-write_file,
}

abbrev entries_1 : List (Text × Meta)
entries_1 =
    (bytes "general.architecture", of_text (bytes "llama"))
    ∷ (bytes "llama.block_count", of_scalar 4 4 32)
    ∷ (bytes "tokens", of_strings (bytes "a" ∷ bytes "bc" ∷ []))
    ∷ (bytes "shift", of_scalar 1 1 255)
    ∷ []

abbrev file_1 : File
file_1 = record {
  version = 3;
  tensor_count = 5;
  kv =
      (bytes "general.architecture", text (bytes "llama"))
      ∷ (bytes "llama.block_count", uint 32)
      ∷ (bytes "tokens", strings_skipped 2)
      ∷ (bytes "shift", int (negsuc 0))
      ∷ [];
}

buffer_1 : List ℕ
buffer_1 = write_file 3 5 entries_1

whole_file : parse (buffer_1 ++ (1 ∷ 2 ∷ [])) ≡ parsed file_1
unfolding buffer_1 parse write_file write_le write_entries write_entry write_str write_value
    write_strs text_eq
whole_file = refl

-- The cut falls into the second entry.
cut_file :
    parse (take 70 buffer_1)
    ≡ parsed (record {
      version = 3;
      tensor_count = 5;
      kv = (bytes "general.architecture", text (bytes "llama")) ∷ [];
    })
unfolding buffer_1 parse write_file write_le write_entries write_entry write_str write_value
    write_strs text_eq
cut_file = refl

block_count : arch_uint (λ v. none) file_1 (bytes "block_count") ≡ some 32
unfolding arch_uint text_eq
block_count = refl

cut_long : 24 ≤ length (take 70 buffer_1)
unfolding buffer_1 write_file write_le
cut_long = omega arith

parse-Continues_example :
    Continues (parse (take 70 buffer_1)) (parse (take 70 buffer_1 ++ drop 70 buffer_1))
parse-Continues_example = parse-Continues (take 70 buffer_1) (drop 70 buffer_1) cut_long

parse_bounds_example :
    (24 + 12 * length file_1.kv ≤ length (buffer_1 ++ (1 ∷ 2 ∷ [])))
    × ((length file_1.kv ≤ 2 ^ 20) × (file_1.version ≢ 0))
parse_bounds_example = parse_bounds (buffer_1 ++ (1 ∷ 2 ∷ [])) file_1 whole_file

entries_1-IsEntry : All IsEntry entries_1
unfolding fixed_width
entries_1-IsEntry = (
  (omega arith, omega arith),
  (
    (omega arith, (refl, (omega arith, omega arith))),
    (
      (omega arith, (omega arith, (omega arith, (omega arith, tt)))),
      ((omega arith, (refl, (omega arith, omega arith))), tt),
    ),
  ),
)

parse-write_file_example :
    parse (write_file 3 5 entries_1 ++ (1 ∷ 2 ∷ []))
    ≡ parsed (record { version = 3; tensor_count = 5; kv = map read_of entries_1 })
parse-write_file_example =
    parse-write_file 3 5 entries_1 (1 ∷ 2 ∷ []) (omega arith) (omega arith) (omega arith)
      (omega arith) entries_1-IsEntry

-- An array reads as the text that stands for it.
array_text : string_of file_1 (bytes "tokens") ≡ some (bytes "[2 strings]")
unfolding string_of text_eq
array_text = refl
