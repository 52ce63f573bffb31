-- ===== src/State/Id.antt =====
-- internal/state/id.go: rig ids, 128 bits in 26 digits of Crockford's base 32.
-- A byte is a number below 256; `b[pos/8]&(1<<(7-pos%8)) != 0` is read as the bit itself.
pub mod RoundTrip
use larri.Prelude.{
  ℕ, zero, suc, ◌+◌, ◌-◌, ◌*◌, ◌/◌, ◌%◌, ◌^◌, ◌&&◌, Bool, true, false, Option, none, some, List, [],
  ◌∷◌, ◌++◌, ltb, ◌==◌, length, get_or, take, if◌then◌else◌,
}
use larri.Prelude.Text.{Text, bytes}

abbrev pub crockford : Text
crockford = bytes "0123456789ABCDEFGHJKMNPQRSTVWXYZ"

abbrev pub id_len : ℕ
id_len = 26

-- strings.ContainsRune and strings.IndexByte: the first place of a byte.
unfoldable pub index_byte : Text → ℕ → Option ℕ
index_byte [] c = none
index_byte (b ∷ s) c =
    if b == c then some 0 else elim (index_byte s c) [ none ↦ none | some i ↦ some (suc i) ]

unfoldable pub contains_rune : Text → ℕ → Bool
unfolding index_byte
contains_rune s c = elim (index_byte s c) [ none ↦ false | some i ↦ true ]

unfoldable pub all_in : Text → Text → Bool
unfolding contains_rune
all_in alphabet [] = true
all_in alphabet (c ∷ s) = contains_rune alphabet c && all_in alphabet s

unfoldable pub is_valid_id : Text → Bool
unfolding all_in
is_valid_id s = (length s == id_len) && all_in crockford s

-- The six timestamp bytes of `newID`, most significant first.
unfoldable pub time_bytes : ℕ → List ℕ
time_bytes ms =
    ms / 2 ^ 40 % 256
    ∷ ms / 2 ^ 32 % 256
    ∷ ms / 2 ^ 24 % 256
    ∷ ms / 2 ^ 16 % 256
    ∷ ms / 2 ^ 8 % 256
    ∷ ms % 256
    ∷ []

-- One turn of the inner loop: `v` shifted left, with the bit of position `hi + k` put in. Positions
-- are counted from two padding bits, so `p` is `pos + 2`.
unfoldable pub shift_in : List ℕ → ℕ → ℕ → ℕ
shift_in b p v =
    v * 2 % 256 + (if ltb p 2 then 0 else get_or b ((p - 2) / 8) 0 / 2 ^ (7 - (p - 2) % 8) % 2)

unfoldable pub digit_value : List ℕ → ℕ → ℕ
unfolding shift_in
digit_value b i = shift_in b (i * 5 + 4) (
    shift_in b (i * 5 + 3) (shift_in b (i * 5 + 2) (shift_in b (i * 5 + 1) (shift_in b (i * 5) 0))))

-- The outer loop, with the digits that are left to write.
unfoldable pub encode_from : List ℕ → ℕ → ℕ → Text
unfolding digit_value
encode_from b i zero = []
encode_from b i (suc left) = get_or crockford (digit_value b i) 0 ∷ encode_from b (suc i) left

unfoldable pub encode_ulid : List ℕ → Text
unfolding encode_from
encode_ulid b = encode_from b 0 id_len

-- `ms<<5 | uint64(strings.IndexByte(crockford, c))`. A digit is below 32, so the low five bits that the
-- shift cleared take it by addition; a byte outside the alphabet gives -1, all ones.
unfoldable pub push_digit : ℕ → ℕ → ℕ
unfolding index_byte
push_digit ms c = elim (index_byte crockford c) [
  | none ↦ 2 ^ 64 - 1
  | some v ↦ ms * 32 % 2 ^ 64 + v
]

unfoldable pub read_digits : ℕ → Text → ℕ → ℕ
unfolding push_digit
read_digits zero id ms = ms
read_digits (suc n) [] ms = ms
read_digits (suc n) (c ∷ id) ms = read_digits n id (push_digit ms c)

-- IDTime, in milliseconds; none is the error.
unfoldable pub id_time : Text → Option ℕ
unfolding is_valid_id read_digits
id_time id = if is_valid_id id then some (read_digits 10 id 0 % 2 ^ 48) else none

-- newID, from ten bytes of entropy; none is entropy that runs short.
unfoldable pub new_id : ℕ → List ℕ → Option Text
new_id ms entropy =
    if ltb (length entropy) 10 then none else some (encode_ulid (time_bytes ms ++ take 10 entropy))
