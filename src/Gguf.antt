-- ===== src/Gguf.antt =====
-- internal/gguf/gguf.go: the metadata header of a GGUF file. A byte is a number below 256. A reader
-- gives a value and the bytes behind it, or none where the parser sets its error: after the first
-- error Parse keeps nothing more, so which error it is does not show.
pub mod Bytes
pub mod Prefix
pub mod Consumed
pub mod Written
pub mod RoundTrip
use larri.Prelude.{
  ℕ, zero, suc, ◌+◌, ◌-◌, ◌*◌, ◌/◌, ◌%◌, ◌^◌, ◌==◌, Bool, true, false, not, ◌&&◌, ◌||◌, Option,
  none, some, List, [], ◌∷◌, ◌++◌, ltb, leb, length, take, drop, if◌then◌else◌,
}
use larri.Prelude.Text.{Text, text_eq, bytes}
use larri.Prelude.Int.{ℤ, pos, negsuc}
use larri.Prelude.Decimal.{digits}
use larri.Gguf.Bytes.{Reader, ◌>>=◌, ret, take_bytes, read_le}

-- A float is kept as its bits. An array is skipped, and what stands for it is its length, of which
-- `text_value` makes the text that the code stores.
pub data Value : Type 0 where
  uint : ℕ → Value
  int : ℤ → Value
  float32 : ℕ → Value
  float64 : ℕ → Value
  flag : Bool → Value
  text : Text → Value
  strings_skipped values_skipped : ℕ → Value

-- `KV` is what is assigned to it, in order: of one key the last counts.
pub record File : Type 0 where
  pub version : ℕ
  pub tensor_count : ℕ
  pub kv : List (Text × Value)

unfoldable pub fixed_width : ℕ → Option ℕ
fixed_width t =
    if (t == 0) || (t == 1) || (t == 7)
    then some 1
    else if (t == 2) || (t == 3)
    then some 2
    else if (t == 4) || (t == 5) || (t == 6)
    then some 4
    else if (t == 10) || (t == 11) || (t == 12)
    then some 8
    else none

-- Of a number of `k` bytes, the signed one with the same bits.
unfoldable pub signed_of : ℕ → ℕ → ℤ
signed_of k n = if ltb n (256 ^ k / 2) then pos n else negsuc (256 ^ k - 1 - n)

-- What `value` makes of the bytes of a type of fixed width.
unfoldable pub scalar : ℕ → ℕ → ℕ → Value
unfolding signed_of
scalar t k n =
    if t == 7
    then flag (not (n == 0))
    else if (t == 1) || (t == 3) || (t == 5) || (t == 11)
    then int (signed_of k n)
    else if t == 6
    then float32 n
    else if t == 12
    then float64 n
    else uint n

-- In the readers, `size` is the length of the whole buffer.
unfoldable pub read_str : ℕ → Reader Text
unfolding take_bytes read_le
read_str size = do n ← read_le 8; if ltb size n then (λ _. none) else take_bytes n

unfoldable pub skip_strings : ℕ → ℕ → Reader (Unit {0})
unfolding read_str
skip_strings size zero = ret tt
skip_strings size (suc n) = read_str size >>= λ _. skip_strings size n

-- `array`, from its element type and count.
unfoldable pub skip_array : ℕ → ℕ → ℕ → Reader Value
unfolding skip_strings fixed_width take_bytes
skip_array size et n =
    if et == 8
    then (skip_strings size n >>= λ _. ret (strings_skipped n))
    else elim (fixed_width et) [
      | none ↦ λ _. none
      | some w ↦
          if ltb size n then (λ _. none) else (take_bytes (n * w) >>= λ _. ret (values_skipped n))
    ]

unfoldable pub read_value : ℕ → ℕ → Reader Value
unfolding scalar skip_array read_str read_le fixed_width
read_value size t =
    if t == 8
    then (read_str size >>= λ s. ret (text s))
    else if t == 9
    then (read_le 4 >>= λ et. read_le 8 >>= λ n. skip_array size et n)
    else elim (fixed_width t) [ none ↦ λ _. none | some w ↦ read_le w >>= λ n. ret (scalar t w n) ]

unfoldable pub read_entry : ℕ → Reader (Text × Value)
unfolding read_str read_value read_le
read_entry size = do key ← read_str size; t ← read_le 4; v ← read_value size t; ret (key, v)

-- The loop of Parse: the entries up to the count or to the first error.
unfoldable pub read_entries : ℕ → ℕ → List ℕ → List (Text × Value)
unfolding read_entry
read_entries size zero b = []
read_entries size (suc n) b = elim (read_entry size b) [
  | none ↦ []
  | some (e, rest) ↦ e ∷ read_entries size n rest
]

pub data Parsed : Type 0 where
  parsed : File → Parsed
  not_gguf implausible_count unreadable_header : Parsed

-- Version, tensor count and metadata count.
unfoldable pub read_header : Reader (ℕ × ℕ × ℕ)
unfolding read_le
read_header = do version ← read_le 4; tensors ← read_le 8; n ← read_le 8; ret (version, tensors, n)

unfoldable pub parse_entries : ℕ → (ℕ × ℕ × ℕ) → List ℕ → Parsed
unfolding read_entries
parse_entries size (version, tensors, n) rest =
    if ltb (2 ^ 20) n
    then implausible_count
    else if version == 0
    then unreadable_header
    else parsed
        (record { version = version; tensor_count = tensors; kv = read_entries size n rest })

-- A buffer of 24 bytes holds the header, so reading it sets no error.
unfoldable pub parse_header : ℕ → Option ((ℕ × ℕ × ℕ) × List ℕ) → Parsed
unfolding parse_entries
parse_header size none = not_gguf
parse_header size (some (h, rest)) = parse_entries size h rest

unfoldable pub parse : List ℕ → Parsed
unfolding read_header parse_header
parse b =
    if ltb (length b) 24 || not (text_eq (take 4 b) (bytes "GGUF"))
    then not_gguf
    else parse_header (length b) (read_header (drop 4 b))

unfoldable pub lookup_last : Text → List (Text × Value) → Option Value
lookup_last k [] = none
lookup_last k ((j, v) ∷ rest) = elim (lookup_last k rest) [
  | some w ↦ some w
  | none ↦ if text_eq j k then some v else none
]

-- What `value` gives for an array that it has skipped.
unfoldable pub skipped_text : ℕ → Text → Text
unfolding digits
skipped_text n what = bytes "[" ++ (digits 20 n [] ++ (bytes " " ++ (what ++ bytes "]")))

unfoldable pub text_value : Value → Option Text
unfolding skipped_text
text_value (text s) = some s
text_value (strings_skipped n) = some (skipped_text n (bytes "strings"))
text_value (values_skipped n) = some (skipped_text n (bytes "values"))
text_value _ = none

-- `String`, which is none for false, and `Arch`.
unfoldable pub string_of : File → Text → Option Text
unfolding lookup_last text_value
string_of f key = elim (lookup_last key f.kv) [ none ↦ none | some v ↦ text_value v ]

unfoldable pub arch : File → Text
unfolding string_of
arch f = elim (string_of f (bytes "general.architecture")) [ none ↦ [] | some s ↦ s ]

-- `Uint`. `whole` gives the number that the bits of a float64 stand for if it is one.
module _ (whole : Value → Option ℕ) where
  unfoldable pub uint_value : Value → Option ℕ
  uint_value (uint n) = some n
  uint_value (int (pos n)) = some n
  uint_value (int (negsuc n)) = none
  uint_value (float32 n) = whole (float32 n)
  uint_value (float64 n) = whole (float64 n)
  uint_value _ = none

  unfoldable pub uint_of : File → Text → Option ℕ
  unfolding uint_value lookup_last
  uint_of f key = elim (lookup_last key f.kv) [ none ↦ none | some v ↦ uint_value v ]

  unfoldable pub arch_uint : File → Text → Option ℕ
  unfolding uint_of arch
  arch_uint f suffix = elim (arch f) [
    | [] ↦ none
    | c ∷ cs ↦ uint_of f ((c ∷ cs) ++ (bytes "." ++ suffix))
  ]
