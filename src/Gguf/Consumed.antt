-- ===== src/Gguf/Consumed.antt =====
-- How much of the buffer the parser of internal/gguf/gguf.go needs for what it reads.
use larri.Prelude.{
  ℕ, zero, suc, ◌+◌, ◌-◌, ◌*◌, ◌^◌, ◌≤◌, ◌≡◌, ◌≢◌, ◌==◌, Bool, true, false, not, ◌||◌, Option, none,
  some, List, [], ◌∷◌, ltb, length, take, drop, arith, Bool-cases, Option-cases, inl, inr,
  if◌then◌else◌,
}
use larri.Prelude.Text.{text_eq, bytes}
use larri.Gguf.Bytes.{Reader, ◌>>=◌, ret, take_bytes, read_le}
use larri.Gguf.{
  Value, File, read_str, skip_strings, skip_array, read_value, read_entry, read_entries,
  fixed_width, parsed, read_header, parse_entries, parse_header, parse,
}

-- A reader that takes `c` bytes or more where it reads something.
abbrev Takes : {A : Type 0} → ℕ → Reader A → Type 0
Takes c p = (b : List ℕ) (a : _) (rest : List ℕ) → p b ≡ some (a, rest) → c + length rest ≤ length b

pub length-drop : (n : ℕ) (b : List ℕ) → length (drop n b) ≡ length b - n
length-drop zero b = omega arith
length-drop (suc n) [] = omega arith
length-drop (suc n) (c ∷ b) = omega (arith, length-drop n b)

take_bytes-Takes : (n : ℕ) → Takes n (take_bytes n)
unfolding take_bytes
take_bytes-Takes n b a rest h = ground (arith, length-drop n b)

bind-Takes :
    {A B : Type 0} (c d : ℕ) (p : Reader A) (f : A → Reader B)
    → Takes c p
    → ((a : A) → Takes d (f a))
    → Takes (c + d) (p >>= f)
bind-Takes c d p f hp hf b x rest h = elim (Option-cases (p b)) [
  | inl none_read ↦ absurd (ground arith)
  | inr ((a, mid), is_read) ↦
      omega (arith, hp b a mid is_read, hf a mid x rest (rw (is_read, ◌>>=◌) at h))
]

ret-Takes : {A : Type 0} (a : A) → Takes 0 (ret a)
ret-Takes a b c rest h = ground arith

least-Takes : {A : Type 0} (c d : ℕ) (p : Reader A) → d ≤ c → Takes c p → Takes d p
least-Takes c d p le h b a rest e = omega (arith, h b a rest e)

read_le-Takes : (k : ℕ) → Takes k (read_le k)
unfolding read_le
read_le-Takes k b a rest h =
    omega
      (arith, bind-Takes k 0 (take_bytes k) _ (take_bytes-Takes k) (λ cs. ret-Takes _) b a rest h)

module _ (size : ℕ) where
  str_tail-Takes : (n : ℕ) → Takes 0 (if ltb size n then (λ _. none) else take_bytes n)
  str_tail-Takes n b a rest h = elim (Bool-cases (ltb size n)) [
    | inl beyond ↦ absurd (ground arith)
    | inr allowed ↦ omega (arith, take_bytes-Takes n b a rest (rw allowed at h))
  ]

  read_str-Takes : Takes 8 (read_str size)
  unfolding read_str
  read_str-Takes = bind-Takes 8 0 (read_le 8) _ (read_le-Takes 8) (λ n. str_tail-Takes n)

  -- A string takes at least its length, so an array of them is at most an eighth of the buffer long.
  skip_strings-Takes : (n : ℕ) → Takes (8 * n) (skip_strings size n)
  unfolding skip_strings
  skip_strings-Takes zero b a rest h = ground arith
  skip_strings-Takes (suc n) b a rest h = omega (
    arith,
    bind-Takes 8 (8 * n) (read_str size) _ read_str-Takes (λ _. skip_strings-Takes n) b a rest h,
  )

  if-Takes :
      {A : Type 0} (c : ℕ) (t : Bool) (p q : Reader A)
      → Takes c p
      → Takes c q
      → Takes c (if t then p else q)
  if-Takes c true p q h k = h
  if-Takes c false p q h k = k

  width-Takes :
      (o : Option ℕ) (f : ℕ → Reader Value)
      → ((w : ℕ) → Takes 0 (f w))
      → Takes 0 (elim o as (λ _. Reader Value) [ none ↦ λ _. none | some w ↦ f w ])
  width-Takes none f h b a rest e = absurd (ground arith)
  width-Takes (some w) f h b a rest e = h w b a rest e

  then-Takes :
      {A B : Type 0} (c : ℕ) (p : Reader A) (f : A → Reader B)
      → Takes c p
      → ((a : A) → Takes 0 (f a))
      → Takes 0 (p >>= f)
  then-Takes c p f h k = least-Takes (c + 0) 0 (p >>= f) (omega arith) (bind-Takes c 0 p f h k)

  skip_array-Takes : (et n : ℕ) → Takes 0 (skip_array size et n)
  unfolding skip_array
  skip_array-Takes et n =
      if-Takes 0 (et == 8) _ _
        (then-Takes (8 * n) (skip_strings size n) _ (skip_strings-Takes n) (λ _. ret-Takes _))
        (width-Takes (fixed_width et) _ (λ w.
          if-Takes 0 (ltb size n) _ _ (λ b a rest h. absurd (ground arith))
            (then-Takes (n * w) (take_bytes (n * w)) _ (take_bytes-Takes (n * w))
              (λ _. ret-Takes _))))

  read_value-Takes : (t : ℕ) → Takes 0 (read_value size t)
  unfolding read_value
  read_value-Takes t =
      if-Takes 0 (t == 8) _ _ (then-Takes 8 (read_str size) _ read_str-Takes (λ s. ret-Takes _)) (
        if-Takes 0 (t == 9) _ _
          (then-Takes 4 (read_le 4) _ (read_le-Takes 4)
            (λ et. then-Takes 8 (read_le 8) _ (read_le-Takes 8) (λ n. skip_array-Takes et n)))
          (width-Takes (fixed_width t) _
            (λ w. then-Takes w (read_le w) _ (read_le-Takes w) (λ n. ret-Takes _))))

  read_entry-Takes : Takes 12 (read_entry size)
  unfolding read_entry
  read_entry-Takes = bind-Takes 8 4 (read_str size) _ read_str-Takes (λ key.
      bind-Takes 4 0 (read_le 4) _ (read_le-Takes 4)
        (λ t. then-Takes 0 (read_value size t) _ (read_value-Takes t) (λ v. ret-Takes _)))

  read_entries-le : (n : ℕ) (b : List ℕ) → 12 * length (read_entries size n b) ≤ length b
  unfolding read_entries
  read_entries-le zero b = omega arith
  read_entries-le (suc n) b = elim (Option-cases (read_entry size b)) [
    | inl stopped ↦ rw (stopped, read_entries) (omega arith)
    | inr ((kv, rest), is_read) ↦
        rw (is_read, read_entries)
          (omega (arith, read_entry-Takes b kv rest is_read, read_entries-le n rest))
  ]

  read_entries-le-count : (n : ℕ) (b : List ℕ) → length (read_entries size n b) ≤ n
  unfolding read_entries
  read_entries-le-count zero b = omega arith
  read_entries-le-count (suc n) b = elim (Option-cases (read_entry size b)) [
    | inl stopped ↦ rw (stopped, read_entries) (omega arith)
    | inr ((kv, rest), is_read) ↦
        rw (is_read, read_entries) (omega (arith, read_entries-le-count n rest))
  ]

header-Takes : Takes 20 read_header
unfolding read_header
header-Takes = bind-Takes 4 16 (read_le 4) _ (read_le-Takes 4) (λ version.
    bind-Takes 8 8 (read_le 8) _ (read_le-Takes 8)
      (λ tensors. bind-Takes 8 0 (read_le 8) _ (read_le-Takes 8) (λ n. ret-Takes _)))

entries_bound :
    (size version tensors n : ℕ) (rest : List ℕ) (f : File)
    → parse_entries size (version, tensors, n) rest ≡ parsed f
    → (12 * length f.kv ≤ length rest) × ((length f.kv ≤ 2 ^ 20) × (f.version ≢ 0))
unfolding parse_entries
entries_bound size version tensors n rest f h =
    ground (arith, read_entries-le size n rest, read_entries-le-count size n rest)

header_bound :
    (size : ℕ) (b : List ℕ) (f : File)
    → parse_header size (read_header b) ≡ parsed f
    → (20 + 12 * length f.kv ≤ length b) × ((length f.kv ≤ 2 ^ 20) × (f.version ≢ 0))
unfolding parse_header
header_bound size b f h = elim (Option-cases (read_header b)) [
  | inl stopped ↦ absurd (cc (rw stopped at h))
  | inr (((version, tensors, n), rest), is_read) ↦
      let k = entries_bound size version tensors n rest f (rw is_read at h) in
      (omega (arith, k.0, header-Takes b _ rest is_read), (k.1.0, k.1.1))
]

-- Whatever counts and lengths a buffer claims, what Parse makes of it is bounded by the buffer: it has
-- 24 bytes for the header and 12 for each entry that was read, there are no more entries than 2 ^ 20,
-- and a version of 0 is never accepted.
pub parse_bounds :
    (b : List ℕ) (f : File)
    → parse b ≡ parsed f
    → (24 + 12 * length f.kv ≤ length b) × ((length f.kv ≤ 2 ^ 20) × (f.version ≢ 0))
unfolding parse
parse_bounds b f h =
    elim (Bool-cases (ltb (length b) 24 || not (text_eq (take 4 b) (bytes "GGUF")))) [
      | inl bad ↦ absurd (cc (rw bad at h))
      | inr good ↦
          let k = header_bound (length b) (drop 4 b) f (rw good at h) in
          (omega (arith, k.0, length-drop 4 b, fits good), (k.1.0, k.1.1))
    ]
  where
    fits : (ltb (length b) 24 || not (text_eq (take 4 b) (bytes "GGUF"))) ≡ false → 24 ≤ length b
    fits e = ground arith
