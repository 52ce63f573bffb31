-- ===== src/Gguf/Written.antt =====
-- Files written after the GGUF format, and what internal/gguf/gguf.go reads of them.
use larri.Prelude.{
  ℕ, zero, suc, ◌+◌, ◌*◌, ◌/◌, ◌%◌, ◌^◌, ◌≤◌, ◌<◌, ◌≡◌, ◌==◌, refl, ap, ◌∙◌, true, false, none,
  some, List, [], ◌∷◌, ◌++◌, leb, ltb, length, length-append, take, drop, All, arith, if◌then◌else◌,
}
use native.Mathlib.Nat.{pow-suc}
use larri.Prelude.Text.{Text}
use larri.Gguf.Bytes.{Reader, ◌>>=◌, ret, take_bytes, little_endian, read_le}
use larri.Gguf.{
  Value, text, strings_skipped, values_skipped, fixed_width, scalar, read_str, skip_strings,
  skip_array, read_value,
}

-- A number in `k` bytes, the lowest first.
unfoldable pub write_le : ℕ → ℕ → List ℕ
write_le zero n = []
write_le (suc k) n = n % 256 ∷ write_le k (n / 256)

pub length-write_le : (k n : ℕ) → length (write_le k n) ≡ k
unfolding write_le
length-write_le zero n = omega arith
length-write_le (suc k) n = omega (arith, length-write_le k (n / 256))

little_endian-write_le : (k n : ℕ) → n < 256 ^ k → little_endian (write_le k n) ≡ n
unfolding write_le little_endian
little_endian-write_le zero n h = omega (arith, h)
little_endian-write_le (suc k) n h =
    omega
      (arith, pow-suc 256 k, little_endian-write_le k (n / 256) (omega (arith, pow-suc 256 k, h)))

take_all : (b e : List ℕ) → take (length b) (b ++ e) ≡ b
take_all [] e = refl
take_all (c ∷ b) e = ap (λ t. c ∷ t) (take_all b e)

drop_all : (b e : List ℕ) → drop (length b) (b ++ e) ≡ e
drop_all [] e = refl
drop_all (c ∷ b) e = drop_all b e

take_bytes_all : (b e : List ℕ) → take_bytes (length b) (b ++ e) ≡ some (b, e)
unfolding take_bytes
take_bytes_all b e =
    let enough : leb (length b) (length (b ++ e)) ≡ true = ground (arith, length-append b e) in
    rw (enough, take_all b e, drop_all b e) refl

take_bytes_of : (n : ℕ) (b e : List ℕ) → length b ≡ n → take_bytes n (b ++ e) ≡ some (b, e)
take_bytes_of n b e h = rw (← h) (take_bytes_all b e)

read_le-write_le :
    (k n : ℕ) (e : List ℕ) → n < 256 ^ k → read_le k (write_le k n ++ e) ≡ some (n, e)
unfolding read_le
read_le-write_le k n e h =
    rw (take_bytes_of k (write_le k n) e (length-write_le k n), ◌>>=◌)
      (ap (λ v. some (v, e)) (little_endian-write_le k n h))

unfoldable pub write_str : Text → List ℕ
write_str s = write_le 8 (length s) ++ s

pub append_assoc : (s t u : List ℕ) → (s ++ t) ++ u ≡ s ++ (t ++ u)
append_assoc [] t u = refl
append_assoc (c ∷ s) t u = ap (λ r. c ∷ r) (append_assoc s t u)

-- The rest of a sequence, once its first reader has read.
pub bind-some :
    {A B : Type 0} (p : Reader A) (f : A → Reader B) (b : List ℕ) (a : A) (rest : List ℕ)
    → p b ≡ some (a, rest)
    → (p >>= f) b ≡ f a rest
bind-some p f b a rest h = rw (h, ◌>>=◌) refl

-- Reading a number that was written, and going on behind it.
pub number-some :
    {B : Type 0} (k n : ℕ) (t u : List ℕ) (f : ℕ → Reader B)
    → n < 256 ^ k
    → (read_le k >>= f) ((write_le k n ++ t) ++ u) ≡ f n (t ++ u)
number-some k n t u f h =
    ap (read_le k >>= f) (append_assoc (write_le k n) t u)
    ∙ bind-some (read_le k) f _ n (t ++ u) (read_le-write_le k n (t ++ u) h)

allowed_lem :
    {A : Type 0} (size n : ℕ) (p : Reader A) (b : List ℕ)
    → n ≤ size
    → (if ltb size n then (λ _. none) else p) b ≡ p b
allowed_lem size n p b h = let e : ltb size n ≡ false = ground arith in rw e refl

pub read_str-write_str :
    (size : ℕ) (s : Text) (e : List ℕ)
    → length s < 256 ^ 8
    → length s ≤ size
    → read_str size (write_str s ++ e) ≡ some (s, e)
unfolding read_str write_str
read_str-write_str size s e small fits =
    number-some 8 (length s) s e _ small
    ∙ allowed_lem size (length s) (take_bytes (length s)) (s ++ e) fits
    ∙ take_bytes_all s e

-- The values of the format: a scalar of a type and width, a string, and arrays of strings or of
-- scalars, whose bytes are given.
pub data Meta : Type 0 where
  of_scalar : ℕ → ℕ → ℕ → Meta
  of_text : Text → Meta
  of_strings : List Text → Meta
  of_values : ℕ → ℕ → ℕ → List ℕ → Meta

abbrev pub IsShort : Text → Type 0
IsShort s = length s < 256 ^ 8

-- The fields hold what is put into them.
abbrev pub IsWritable : Meta → Type 0
IsWritable (of_scalar t w n) = (fixed_width t ≡ some w) × ((t < 256 ^ 4) × (n < 256 ^ w))
IsWritable (of_text s) = IsShort s
IsWritable (of_strings ss) = (length ss < 256 ^ 8) × All IsShort ss
IsWritable (of_values t w n b) =
    (fixed_width t ≡ some w) × ((t < 256 ^ 4) × ((n < 256 ^ 8) × (length b ≡ n * w)))

abbrev pub type_of : Meta → ℕ
type_of (of_scalar t w n) = t
type_of (of_text s) = 8
type_of (of_strings ss) = 9
type_of (of_values t w n b) = 9

unfoldable pub write_strs : List Text → List ℕ
write_strs [] = []
write_strs (s ∷ ss) = write_str s ++ write_strs ss

unfoldable pub write_value : Meta → List ℕ
write_value (of_scalar t w n) = write_le w n
write_value (of_text s) = write_str s
write_value (of_strings ss) = write_le 4 8 ++ (write_le 8 (length ss) ++ write_strs ss)
write_value (of_values t w n b) = write_le 4 t ++ (write_le 8 n ++ b)

-- What is read of each: an array is skipped.
unfoldable pub meaning : Meta → Value
meaning (of_scalar t w n) = scalar t w n
meaning (of_text s) = text s
meaning (of_strings ss) = strings_skipped (length ss)
meaning (of_values t w n b) = values_skipped n

pub length-write_str : (s : Text) → length (write_str s) ≡ 8 + length s
unfolding write_str
length-write_str s =
    omega (arith, length-append (write_le 8 (length s)) s, length-write_le 8 (length s))

skip_strings-write_strs :
    (size : ℕ) (ss : List Text) (e : List ℕ)
    → All IsShort ss
    → length (write_strs ss) ≤ size
    → skip_strings size (length ss) (write_strs ss ++ e) ≡ some (tt, e)
unfolding skip_strings write_strs
skip_strings-write_strs size [] e h k = refl
skip_strings-write_strs size (s ∷ ss) e h k =
    let room = length-append (write_str s) (write_strs ss) in
    ap (skip_strings size (length (s ∷ ss))) (append_assoc (write_str s) (write_strs ss) e)
    ∙ bind-some (read_str size) _ _ s (write_strs ss ++ e) (
        read_str-write_str size s (write_strs ss ++ e) h.0
          (omega (arith, k, room, length-write_str s)))
    ∙ skip_strings-write_strs size ss e h.1 (omega (arith, k, room))

fixed_width-pos : (t w : ℕ) → fixed_width t ≡ some w → 1 ≤ w
unfolding fixed_width
fixed_width-pos t w h = ground arith

count-le-strs : (ss : List Text) → length ss ≤ length (write_strs ss)
unfolding write_strs
count-le-strs [] = omega arith
count-le-strs (s ∷ ss) =
    omega (arith, count-le-strs ss, length-append (write_str s) (write_strs ss), length-write_str s)

count-le-mul : (n w : ℕ) → 1 ≤ w → n ≤ n * w
count-le-mul n w h = grind arith

not_text : (t w : ℕ) → fixed_width t ≡ some w → (t == 8) ≡ false
unfolding fixed_width
not_text t w h = ground arith

not_array : (t w : ℕ) → fixed_width t ≡ some w → (t == 9) ≡ false
unfolding fixed_width
not_array t w h = ground arith

-- An array behind its element type and count.
strings-some :
    (size : ℕ) (ss : List Text) (e : List ℕ)
    → All IsShort ss
    → length (write_strs ss) ≤ size
    → skip_array size 8 (length ss) (write_strs ss ++ e) ≡ some (strings_skipped (length ss), e)
unfolding skip_array
strings-some size ss e h k =
    bind-some (skip_strings size (length ss)) _ _ tt e (skip_strings-write_strs size ss e h k)

values-some :
    (size t w n : ℕ) (b e : List ℕ)
    → fixed_width t ≡ some w
    → length b ≡ n * w
    → length b ≤ size
    → skip_array size t n (b ++ e) ≡ some (values_skipped n, e)
unfolding skip_array
values-some size t w n b e is_fixed is_long fits =
    let other : (t == 8) ≡ false = not_text t w is_fixed in
    rw (other, is_fixed)
      (allowed_lem size n (take_bytes (n * w) >>= λ _. ret (values_skipped n)) (b ++ e)
          (omega (arith, count-le-mul n w (fixed_width-pos t w is_fixed), is_long, fits))
        ∙ bind-some (take_bytes (n * w)) _ (b ++ e) b e (take_bytes_of (n * w) b e is_long))

pub read_value-write_value :
    (size : ℕ) (m : Meta) (e : List ℕ)
    → IsWritable m
    → length (write_value m) ≤ size
    → read_value size (type_of m) (write_value m ++ e) ≡ some (meaning m, e)
unfolding read_value write_value meaning
read_value-write_value size (of_scalar t w n) e h fits =
    rw (not_text t w h.0, not_array t w h.0, h.0)
      (bind-some (read_le w) _ _ n e (read_le-write_le w n e h.1.1))
read_value-write_value size (of_text s) e h fits =
    bind-some (read_str size) _ _ s e
      (read_str-write_str size s e h (omega (arith, fits, length-write_str s)))
read_value-write_value size (of_strings ss) e h fits =
    let parts = length-append (write_le 4 8) (write_le 8 (length ss) ++ write_strs ss) in
    let parts' = length-append (write_le 8 (length ss)) (write_strs ss) in
    number-some 4 8 (write_le 8 (length ss) ++ write_strs ss) e _ (omega arith)
    ∙ number-some 8 (length ss) (write_strs ss) e _ h.0
    ∙ strings-some size ss e h.1 (omega (arith, fits, parts, parts'))
read_value-write_value size (of_values t w n b) e h fits =
    let parts = length-append (write_le 4 t) (write_le 8 n ++ b) in
    let parts' = length-append (write_le 8 n) b in
    number-some 4 t (write_le 8 n ++ b) e _ h.1.0
    ∙ number-some 8 n b e _ h.1.1.0
    ∙ values-some size t w n b e h.0 h.1.1.1 (omega (arith, fits, parts, parts'))
