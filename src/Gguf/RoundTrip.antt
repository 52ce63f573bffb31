-- ===== src/Gguf/RoundTrip.antt =====
-- Whole files written after the GGUF format, and what internal/gguf/gguf.go reads of them.
use larri.Prelude.{
  ℕ, suc, ◌+◌, ◌^◌, ◌≤◌, ◌<◌, ◌≡◌, ◌≢◌, ◌==◌, refl, ap, ◌∙◌, true, false, Option, some, List, [],
  ◌∷◌, ◌++◌, map, ltb, length, length-append, take, drop, All, arith,
}
use larri.Prelude.Text.{Text, text_eq, bytes}
use larri.Gguf.{
  Value, read_str, read_value, read_entry, read_entries, parsed, read_header, parse_entries,
  parse_header, parse,
}
use larri.Gguf.Written.{
  write_le, length-write_le, append_assoc, write_str, length-write_str, bind-some, number-some,
  read_str-write_str, Meta, of_scalar, of_text, of_strings, of_values, IsShort, IsWritable, type_of,
  write_value, meaning, read_value-write_value,
}

unfoldable pub write_entry : Text × Meta → List ℕ
write_entry (k, m) = write_str k ++ (write_le 4 (type_of m) ++ write_value m)

unfoldable pub write_entries : List (Text × Meta) → List ℕ
write_entries [] = []
write_entries (e ∷ es) = write_entry e ++ write_entries es

unfoldable pub write_file : ℕ → ℕ → List (Text × Meta) → List ℕ
write_file version tensors es =
    bytes "GGUF"
    ++ (write_le 4 version ++ (write_le 8 tensors ++ (write_le 8 (length es) ++ write_entries es)))

abbrev pub IsEntry : Text × Meta → Type 0
IsEntry (k, m) = IsShort k × IsWritable m

abbrev pub read_of : Text × Meta → Text × Value
read_of (k, m) = (k, meaning m)

type_of_lt : (m : Meta) → IsWritable m → type_of m < 256 ^ 4
type_of_lt (of_scalar t w n) h = h.1.0
type_of_lt (of_text s) h = omega arith
type_of_lt (of_strings ss) h = omega arith
type_of_lt (of_values t w n b) h = omega arith

read_entry-write_entry :
    (size : ℕ) (e : Text × Meta) (rest : List ℕ)
    → IsEntry e
    → length (write_entry e) ≤ size
    → read_entry size (write_entry e ++ rest) ≡ some (read_of e, rest)
unfolding read_entry write_entry
read_entry-write_entry size (k, m) rest h fits =
    let typed = write_le 4 (type_of m) ++ write_value m in
    let parts = length-append (write_str k) typed in
    let parts' = length-append (write_le 4 (type_of m)) (write_value m) in
    ap (read_entry size) (append_assoc (write_str k) typed rest)
    ∙ bind-some (read_str size) _ _ k (typed ++ rest) (
        read_str-write_str size k (typed ++ rest) h.0
          (omega (arith, fits, parts, length-write_str k)))
    ∙ number-some 4 (type_of m) (write_value m) rest _ (type_of_lt m h.1)
    ∙ bind-some (read_value size (type_of m)) _ _ (meaning m) rest
        (read_value-write_value size m rest h.1 (omega (arith, fits, parts, parts')))

next_entry :
    (size n : ℕ) (b : List ℕ) (e : Text × Value) (rest : List ℕ)
    → read_entry size b ≡ some (e, rest)
    → read_entries size (suc n) b ≡ e ∷ read_entries size n rest
unfolding read_entries
next_entry size n b e rest h = rw (h, read_entries) refl

read_entries-write_entries :
    (size : ℕ) (es : List (Text × Meta)) (rest : List ℕ)
    → All IsEntry es
    → length (write_entries es) ≤ size
    → read_entries size (length es) (write_entries es ++ rest) ≡ map read_of es
unfolding read_entries write_entries
read_entries-write_entries size [] rest h fits = refl
read_entries-write_entries size (e ∷ es) rest h fits =
    let parts = length-append (write_entry e) (write_entries es) in
    let here =
      read_entry-write_entry size e (write_entries es ++ rest) h.0 (omega (arith, fits, parts)) in
    ap (read_entries size (length (e ∷ es))) (append_assoc (write_entry e) (write_entries es) rest)
    ∙ next_entry size (length es) (write_entry e ++ (write_entries es ++ rest)) (read_of e)
        (write_entries es ++ rest) here
    ∙ ap (λ t. read_of e ∷ t)
        (read_entries-write_entries size es rest h.1 (omega (arith, fits, parts)))

unfoldable body_of : ℕ → ℕ → List (Text × Meta) → List ℕ
body_of version tensors es =
    write_le 4 version ++ (write_le 8 tensors ++ (write_le 8 (length es) ++ write_entries es))

read_header-body_of :
    (version tensors : ℕ) (es : List (Text × Meta)) (rest : List ℕ)
    → version < 256 ^ 4
    → tensors < 256 ^ 8
    → length es < 256 ^ 8
    → read_header (body_of version tensors es ++ rest)
      ≡ some ((version, tensors, length es), write_entries es ++ rest)
unfolding read_header body_of
read_header-body_of version tensors es rest h k l =
    number-some 4 version (write_le 8 tensors ++ (write_le 8 (length es) ++ write_entries es)) rest
      _ h
    ∙ number-some 8 tensors (write_le 8 (length es) ++ write_entries es) rest _ k
    ∙ number-some 8 (length es) (write_entries es) rest _ l

length-body_of :
    (version tensors : ℕ) (es : List (Text × Meta))
    → length (body_of version tensors es) ≡ 20 + length (write_entries es)
unfolding body_of
length-body_of version tensors es =
    let entries = write_entries es in
    let counted = write_le 8 (length es) ++ entries in
    omega (
      arith,
      length-append (write_le 4 version) (write_le 8 tensors ++ counted),
      length-append (write_le 8 tensors) counted,
      length-append (write_le 8 (length es)) entries,
      length-write_le 4 version,
      length-write_le 8 tensors,
      length-write_le 8 (length es),
    )

parse_good :
    (b : List ℕ)
    → 24 ≤ length b
    → text_eq (take 4 b) (bytes "GGUF") ≡ true
    → parse b ≡ parse_header (length b) (read_header (drop 4 b))
unfolding parse
parse_good b h good = let long : ltb (length b) 24 ≡ false = ground arith in rw (long, good) refl

parse_entries_good :
    (size version tensors n : ℕ) (b : List ℕ)
    → version ≢ 0
    → n ≤ 2 ^ 20
    → parse_entries size (version, tensors, n) b
      ≡ parsed (record { version = version; tensor_count = tensors; kv = read_entries size n b })
unfolding parse_entries
parse_entries_good size version tensors n b h k =
    let few : ltb (2 ^ 20) n ≡ false = ground arith in
    let good : (version == 0) ≡ false = ground arith in rw (few, good) refl

header_good :
    (size : ℕ) (o : Option ((ℕ × ℕ × ℕ) × List ℕ)) (h : ℕ × ℕ × ℕ) (b : List ℕ)
    → o ≡ some (h, b)
    → parse_header size o ≡ parse_entries size h b
unfolding parse_header
header_good size o h b e = rw e refl

-- A file of a version, with no more entries than the parser takes, is read as it was written, whatever
-- follows its header: arrays are skipped, and of them their lengths are kept.
pub parse-write_file :
    (version tensors : ℕ) (es : List (Text × Meta)) (rest : List ℕ)
    → version ≢ 0
    → version < 256 ^ 4
    → tensors < 256 ^ 8
    → length es ≤ 2 ^ 20
    → All IsEntry es
    → parse (write_file version tensors es ++ rest)
      ≡ parsed (record { version = version; tensor_count = tensors; kv = map read_of es })
unfolding write_file body_of text_eq
parse-write_file version tensors es rest nonzero small_version small_tensors few h =
    let b = write_file version tensors es ++ rest in
    let body = body_of version tensors es in
    let long : length b ≡ 24 + length (write_entries es) + length rest =
      omega (arith, length-append body rest, length-body_of version tensors es) in
    parse_good b (omega (arith, long)) refl
    ∙ header_good (length b) (read_header (body ++ rest)) (version, tensors, length es)
        (write_entries es ++ rest)
        (read_header-body_of version tensors es rest small_version small_tensors
          (omega (arith, few)))
    ∙ parse_entries_good (length b) version tensors (length es) (write_entries es ++ rest) nonzero
        few
    ∙ ap (λ kv. parsed (record { version = version; tensor_count = tensors; kv = kv }))
        (read_entries-write_entries (length b) es rest h (omega (arith, long)))
