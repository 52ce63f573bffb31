-- ===== src/State/Id/RoundTrip.antt =====
-- The form of the ids that internal/state/id.go mints, and the time read back from them.
use larri.Prelude.{
  ℕ, zero, suc, ◌+◌, ◌-◌, ◌*◌, ◌/◌, ◌%◌, ◌^◌, ◌≤◌, ◌<◌, ◌≡◌, refl, ap, Bool, true, false, Option,
  none, some, List, ◌∷◌, ◌++◌, arith, ltb, lt→ltb, ◌==◌, ◌∙◌, length, get_or, take, if◌then◌else◌,
}
use mathlib.Core.Path.{subst}
use native.Mathlib.Nat.{suc-add, pow-suc, one-le-pow, mul-le-mul_right, mul-le-mul_left}
use larri.Prelude.Text.{Text}
use larri.State.Id.{
  crockford, index_byte, contains_rune, all_in, is_valid_id, time_bytes, shift_in, digit_value,
  encode_from, encode_ulid, push_digit, read_digits, id_time, new_id,
}

-- The bit at a position, counted from the two padding bits.
bit_at : List ℕ → ℕ → ℕ
bit_at b p = if ltb p 2 then 0 else get_or b ((p - 2) / 8) 0 / 2 ^ (7 - (p - 2) % 8) % 2

bit_at-le : (b : List ℕ) (p : ℕ) → bit_at b p ≤ 1
unfolding bit_at
bit_at-le b p = ground arith

shift_in_lem : (b : List ℕ) (p v : ℕ) → shift_in b p v ≡ v * 2 % 256 + bit_at b p
unfolding shift_in bit_at
shift_in_lem b p v = refl

digit_value_lem :
    (b : List ℕ) (i : ℕ)
    → digit_value b i
      ≡ 16 * bit_at b (i * 5)
        + 8 * bit_at b (i * 5 + 1)
        + 4 * bit_at b (i * 5 + 2)
        + 2 * bit_at b (i * 5 + 3)
        + bit_at b (i * 5 + 4)
unfolding digit_value
digit_value_lem b i = rw shift_in_lem (
    rw shift_in_lem (
      rw shift_in_lem (
        rw shift_in_lem (
          rw shift_in_lem (
            omega (
              arith,
              bit_at-le b (i * 5),
              bit_at-le b (i * 5 + 1),
              bit_at-le b (i * 5 + 2),
              bit_at-le b (i * 5 + 3),
              bit_at-le b (i * 5 + 4),
            ))))))

digit_value-lt : (b : List ℕ) (i : ℕ) → digit_value b i < 32
digit_value-lt b i = omega (
  arith,
  digit_value_lem b i,
  bit_at-le b (i * 5),
  bit_at-le b (i * 5 + 1),
  bit_at-le b (i * 5 + 2),
  bit_at-le b (i * 5 + 3),
  bit_at-le b (i * 5 + 4),
)

-- The digits below a bound all pass a test.
digits_pass : (ℕ → Bool) → ℕ → Bool
digits_pass test zero = true
digits_pass test (suc top) = let below = digits_pass test top in if test top then below else false

digit_passes : (test : ℕ → Bool) (top v : ℕ) → v < top → digits_pass test top ≡ true → test v ≡ true
unfolding digits_pass
digit_passes test zero v small pass = absurd (omega arith)
digit_passes test (suc top) v small pass = ground (arith, digit_passes test top v)

is_at : Option ℕ → ℕ → Bool
is_at none v = false
is_at (some i) v = i == v

is_at-eq : (o : Option ℕ) (v : ℕ) → is_at o v ≡ true → o ≡ some v
unfolding is_at
is_at-eq o v h = ground arith

alphabet_table : digits_pass (λ v. is_at (index_byte crockford (get_or crockford v 0)) v) 32 ≡ true
unfolding digits_pass is_at index_byte
alphabet_table = refl

-- A digit's letter is found at the digit.
index_byte-digit : (v : ℕ) → v < 32 → index_byte crockford (get_or crockford v 0) ≡ some v
index_byte-digit v h = is_at-eq (index_byte crockford (get_or crockford v 0)) v (
    digit_passes (λ v. is_at (index_byte crockford (get_or crockford v 0)) v) 32 v h alphabet_table)

push_digit-letter :
    (ms v : ℕ) → v < 32 → ms * 32 < 2 ^ 64 → push_digit ms (get_or crockford v 0) ≡ ms * 32 + v
unfolding push_digit
push_digit-letter ms v h b = rw (index_byte-digit v h, push_digit) (omega arith)

contains_rune-letter : (v : ℕ) → v < 32 → contains_rune crockford (get_or crockford v 0) ≡ true
unfolding contains_rune
contains_rune-letter v h = rw (index_byte-digit v h, contains_rune)

all_in-cons :
    (alphabet : Text) (c : ℕ) (s : Text)
    → contains_rune alphabet c ≡ true
    → all_in alphabet s ≡ true
    → all_in alphabet (c ∷ s) ≡ true
unfolding all_in
all_in-cons alphabet c s h k = ground arith

is_valid_id_intro : (s : Text) → length s ≡ 26 → all_in crockford s ≡ true → is_valid_id s ≡ true
unfolding is_valid_id
is_valid_id_intro s h k = ground arith

encode_from-valid :
    (b : List ℕ) (i n : ℕ)
    → (length (encode_from b i n) ≡ n) × (all_in crockford (encode_from b i n) ≡ true)
unfolding encode_from
encode_from-valid b i zero = (refl, unfold all_in in refl)
encode_from-valid b i (suc n) =
    let ih = encode_from-valid b (suc i) n in
    (
      ap suc ih.0,
      all_in-cons crockford (get_or crockford (digit_value b i) 0) (encode_from b (suc i) n)
          (contains_rune-letter (digit_value b i) (digit_value-lt b i)) ih.1,
    )

-- Any sixteen bytes give a well-formed id.
encode_ulid-valid : (b : List ℕ) → is_valid_id (encode_ulid b) ≡ true
unfolding encode_ulid
encode_ulid-valid b =
    let h = encode_from-valid b 0 26 in is_valid_id_intro (encode_from b 0 26) h.0 h.1

-- The digits from place `i` on, read in base 32.
abbrev value_from : ℕ → List ℕ → ℕ → ℕ → ℕ
value_from zero b i ms = ms
value_from (suc n) b i ms = value_from n b (suc i) (ms * 32 + digit_value b i)

room_at :
    (p ms d m : ℕ)
    → 0 < p
    → d < 32
    → (ms + 1) * (p * 32) ≤ m
    → ((ms * 32 + d + 1) * p ≤ m) × (ms * 32 ≤ m)
room_at p ms d m q h r =
    let k : suc d * p ≤ 32 * p = mul-le-mul_right p h in
    let l : ms * 1 ≤ ms * p = mul-le-mul_left ms q in (omega arith, omega arith)

room :
    (n ms d : ℕ)
    → d < 32
    → (ms + 1) * 32 ^ suc n ≤ 2 ^ 60
    → ((ms * 32 + d + 1) * 32 ^ n ≤ 2 ^ 60) × (ms * 32 ≤ 2 ^ 60)
room n ms d h r =
    room_at (32 ^ n) ms d (2 ^ 60) (one-le-pow n 32 (omega arith)) h
      (subst (λ t. (ms + 1) * t ≤ 2 ^ 60) (pow-suc 32 n) r)

read_digits-encode_from :
    (n k : ℕ) (b : List ℕ) (i ms : ℕ)
    → (ms + 1) * 32 ^ n ≤ 2 ^ 60
    → read_digits n (encode_from b i (n + k)) ms ≡ value_from n b i ms
unfolding read_digits encode_from
read_digits-encode_from zero k b i ms h = refl
read_digits-encode_from (suc n) k b i ms h =
    let r = room n ms (digit_value b i) (digit_value-lt b i) h in
    rw suc-add (
      rw (push_digit-letter ms (digit_value b i) (digit_value-lt b i) (omega (arith, r.1)))
        (read_digits-encode_from n k b (suc i) (ms * 32 + digit_value b i) r.0))

module _ (x y z u v w : ℕ) (rest : List ℕ) (hx : x < 256) (hy : y < 256) (hz : z < 256)
    (hu : u < 256) (hv : v < 256) (hw : w < 256) where
  abbrev six : List ℕ
  six = x ∷ y ∷ z ∷ u ∷ v ∷ w ∷ rest

  digit0 : digit_value six 0 ≡ x / 32
  digit0 = rw digit_value_lem (unfold bit_at in omega arith)

  digit1 : digit_value six 1 ≡ x % 32
  digit1 = rw digit_value_lem (unfold bit_at in omega arith)

  digit2 : digit_value six 2 ≡ y / 8
  digit2 = rw digit_value_lem (unfold bit_at in omega arith)

  digit3 : digit_value six 3 ≡ y % 8 * 4 + z / 64
  digit3 = rw digit_value_lem (unfold bit_at in omega arith)

  digit4 : digit_value six 4 ≡ z / 2 % 32
  digit4 = rw digit_value_lem (unfold bit_at in omega arith)

  digit5 : digit_value six 5 ≡ z % 2 * 16 + u / 16
  digit5 = rw digit_value_lem (unfold bit_at in omega arith)

  digit6 : digit_value six 6 ≡ u % 16 * 2 + v / 128
  digit6 = rw digit_value_lem (unfold bit_at in omega arith)

  digit7 : digit_value six 7 ≡ v / 4 % 32
  digit7 = rw digit_value_lem (unfold bit_at in omega arith)

  digit8 : digit_value six 8 ≡ v % 4 * 8 + w / 32
  digit8 = rw digit_value_lem (unfold bit_at in omega arith)

  digit9 : digit_value six 9 ≡ w % 32
  digit9 = rw digit_value_lem (unfold bit_at in omega arith)

  value_six :
      value_from 10 six 0 0 ≡ x * 2 ^ 40 + y * 2 ^ 32 + z * 2 ^ 24 + u * 2 ^ 16 + v * 2 ^ 8 + w
  value_six =
      omega (arith, digit0, digit1, digit2, digit3, digit4, digit5, digit6, digit7, digit8, digit9)

byte_sum :
    (ms : ℕ)
    → ms / 2 ^ 40 % 256 * 2 ^ 40
        + ms / 2 ^ 32 % 256 * 2 ^ 32
        + ms / 2 ^ 24 % 256 * 2 ^ 24
        + ms / 2 ^ 16 % 256 * 2 ^ 16
        + ms / 2 ^ 8 % 256 * 2 ^ 8
        + ms % 256
      ≡ ms % 2 ^ 48
byte_sum ms = omega arith

id_time_of_digits :
    (id : Text) {n : ℕ}
    → is_valid_id id ≡ true
    → read_digits 10 id 0 ≡ n
    → id_time id ≡ some (n % 2 ^ 48)
unfolding id_time
id_time_of_digits id v h = rw v (rw h)

read_ulid : (b : List ℕ) → read_digits 10 (encode_ulid b) 0 ≡ value_from 10 b 0 0
unfolding encode_ulid
read_ulid b = read_digits-encode_from 10 16 b 0 0 (omega arith)

value_of_time : (ms : ℕ) (rest : List ℕ) → value_from 10 (time_bytes ms ++ rest) 0 0 ≡ ms % 2 ^ 48
unfolding time_bytes
value_of_time ms rest =
    value_six (ms / 2 ^ 40 % 256) (ms / 2 ^ 32 % 256) (ms / 2 ^ 24 % 256) (ms / 2 ^ 16 % 256)
      (ms / 2 ^ 8 % 256) (ms % 256) rest (omega arith) (omega arith) (omega arith) (omega arith)
      (omega arith) (omega arith)
    ∙ byte_sum ms

time_of_new :
    (ms : ℕ) (rest : List ℕ) → id_time (encode_ulid (time_bytes ms ++ rest)) ≡ some (ms % 2 ^ 48)
time_of_new ms rest =
    let b = time_bytes ms ++ rest in
    id_time_of_digits (encode_ulid b) (encode_ulid-valid b) (read_ulid b ∙ value_of_time ms rest)
    ∙ ap some (omega arith)

enough : (n : ℕ) → 10 ≤ n → ltb n 10 ≡ false
enough n h = ground arith

new_id_minted :
    (ms : ℕ) (entropy : List ℕ)
    → 10 ≤ length entropy
    → new_id ms entropy ≡ some (encode_ulid (time_bytes ms ++ take 10 entropy))
unfolding new_id
new_id_minted ms entropy h = rw (enough (length entropy) h)

-- With ten bytes of entropy or more a new id is minted, it is well formed, and the time read from it
-- is the 48 low bits of the time it was minted at; with fewer there is none.
pub new_id-time :
    (ms : ℕ) (entropy : List ℕ)
    → (length entropy < 10 → new_id ms entropy ≡ none)
      × (10 ≤ length entropy
          → (id : Text) × (new_id ms entropy ≡ some id)
            × (is_valid_id id ≡ true)
            × (id_time id ≡ some (ms % 2 ^ 48)))
new_id-time ms entropy = (
  λ h. unfold new_id in rw (lt→ltb (length entropy) 10 h),
  λ h. (
    encode_ulid (time_bytes ms ++ take 10 entropy),
    new_id_minted ms entropy h,
    encode_ulid-valid (time_bytes ms ++ take 10 entropy),
    time_of_new ms (take 10 entropy),
  ),
)
