-- ===== src/Gguf/Prefix.antt =====
-- What internal/gguf/gguf.go reads of a prefix of a file, against what it reads of the whole.
use larri.Prelude.{
  ℕ, zero, suc, ◌+◌, ◌*◌, ◌-◌, ◌^◌, ◌≤◌, ◌≡◌, ◌==◌, refl, ap, Bool, true, false, ◌⊎◌, Option, none,
  some, List, [], ◌∷◌, ◌++◌, ltb, length, length-append, take, drop, arith, Bool-cases,
  Option-cases, inl, inr, if◌then◌else◌,
}
use larri.Prelude.Text.{Text, text_eq, bytes}
use larri.Gguf.Bytes.{Reader, ◌>>=◌, ret, take_bytes, read_le, little_endian}
use larri.Gguf.{
  Value, File, read_str, skip_strings, skip_array, read_value, read_entry, read_entries,
  fixed_width, Parsed, parsed, not_gguf, read_header, parse_entries, parse_header, parse,
}

-- Where `p` reads something, `q` reads the same of the longer buffer, and leaves what was added.
abbrev Extends : {A : Type 0} → Reader A → Reader A → Type 0
Extends p q =
    (b e : List ℕ) (a : _) (rest : List ℕ) → p b ≡ some (a, rest) → q (b ++ e) ≡ some (a, rest ++ e)

take-++ : (n : ℕ) (b e : List ℕ) → n ≤ length b → take n (b ++ e) ≡ take n b
take-++ zero b e h = refl
take-++ (suc n) [] e h = absurd (omega (arith, h))
take-++ (suc n) (c ∷ b) e h = ap (λ t. c ∷ t) (take-++ n b e (omega (arith, h)))

drop-++ : (n : ℕ) (b e : List ℕ) → n ≤ length b → drop n (b ++ e) ≡ drop n b ++ e
drop-++ zero b e h = refl
drop-++ (suc n) [] e h = absurd (omega (arith, h))
drop-++ (suc n) (c ∷ b) e h = drop-++ n b e (omega (arith, h))

take_bytes-Extends : (n : ℕ) → Extends (take_bytes n) (take_bytes n)
unfolding take_bytes
take_bytes-Extends n b e a rest h = ground (arith, take-++ n b e, drop-++ n b e, length-append b e)

bind-Extends :
    {A B : Type 0} (p q : Reader A) (f g : A → Reader B)
    → Extends p q
    → ((a : A) → Extends (f a) (g a))
    → Extends (p >>= f) (q >>= g)
bind-Extends p q f g pq fg b e c rest h = elim (Option-cases (p b)) [
  | inl none_read ↦ absurd (ground arith)
  | inr ((a, mid), is_read) ↦
      rw (pq b e a mid is_read, ◌>>=◌) (fg a mid e c rest (rw (is_read, ◌>>=◌) at h))
]

ret-Extends : {A : Type 0} (a : A) → Extends (ret a) (ret a)
ret-Extends a b e c rest h = ground arith

read_le-Extends : (k : ℕ) → Extends (read_le k) (read_le k)
unfolding read_le
read_le-Extends k =
    bind-Extends (take_bytes k) (take_bytes k) _ _ (take_bytes-Extends k)
      (λ cs. ret-Extends (little_endian cs))

-- A length that the shorter buffer allows is allowed by the longer one.
checked-Extends :
    {A : Type 0} (size more n : ℕ) (p q : Reader A)
    → Extends p q
    → Extends
        (if ltb size n then (λ _. none) else p)
        (if ltb (size + more) n then (λ _. none) else q)
checked-Extends size more n p q pq b e a rest h = elim (Bool-cases (ltb size n)) [
  | inl beyond ↦ absurd (ground arith)
  | inr allowed ↦
      let still : ltb (size + more) n ≡ false = ground arith in
      rw still (pq b e a rest (rw allowed at h))
]

module _ (size more : ℕ) where
  read_str-Extends : Extends (read_str size) (read_str (size + more))
  unfolding read_str
  read_str-Extends =
      bind-Extends (read_le 8) (read_le 8) _ _ (read_le-Extends 8)
        (λ n. checked-Extends size more n (take_bytes n) (take_bytes n) (take_bytes-Extends n))

  skip_strings-Extends : (n : ℕ) → Extends (skip_strings size n) (skip_strings (size + more) n)
  unfolding skip_strings
  skip_strings-Extends zero = ret-Extends tt
  skip_strings-Extends (suc n) =
      bind-Extends (read_str size) (read_str (size + more)) _ _ read_str-Extends
        (λ _. skip_strings-Extends n)

  width-Extends :
      (o : Option ℕ) (f g : ℕ → Reader Value)
      → ((w : ℕ) → Extends (f w) (g w))
      → Extends
          (elim o as (λ _. Reader Value) [ none ↦ λ _. none | some w ↦ f w ])
          (elim o as (λ _. Reader Value) [ none ↦ λ _. none | some w ↦ g w ])
  width-Extends none f g fg b e a rest h = absurd (ground arith)
  width-Extends (some w) f g fg b e a rest h = fg w b e a rest h

  if-Extends :
      {A : Type 0} (t : Bool) (p q p' q' : Reader A)
      → Extends p p'
      → Extends q q'
      → Extends (if t then p else q) (if t then p' else q')
  if-Extends true p q p' q' h k = h
  if-Extends false p q p' q' h k = k

  skip_array-Extends : (et n : ℕ) → Extends (skip_array size et n) (skip_array (size + more) et n)
  unfolding skip_array
  skip_array-Extends et n =
      if-Extends (et == 8) _ _ _ _
        (bind-Extends (skip_strings size n) (skip_strings (size + more) n) _ _
          (skip_strings-Extends n) (λ _. ret-Extends _))
        (width-Extends (fixed_width et) _ _ (λ w. checked-Extends size more n _ _ (
          bind-Extends (take_bytes (n * w)) (take_bytes (n * w)) _ _ (take_bytes-Extends (n * w))
            (λ _. ret-Extends _))))

  read_value-Extends : (t : ℕ) → Extends (read_value size t) (read_value (size + more) t)
  unfolding read_value
  read_value-Extends t =
      if-Extends (t == 8) _ _ _ _
        (bind-Extends (read_str size) (read_str (size + more)) _ _ read_str-Extends
          (λ s. ret-Extends _))
        (if-Extends (t == 9) _ _ _ _
          (bind-Extends (read_le 4) (read_le 4) _ _ (read_le-Extends 4) (λ et.
            bind-Extends (read_le 8) (read_le 8) _ _ (read_le-Extends 8)
              (λ n. skip_array-Extends et n)))
          (width-Extends (fixed_width t) _ _ (λ w.
            bind-Extends (read_le w) (read_le w) _ _ (read_le-Extends w) (λ n. ret-Extends _))))

  read_entry-Extends : Extends (read_entry size) (read_entry (size + more))
  unfolding read_entry
  read_entry-Extends =
      bind-Extends (read_str size) (read_str (size + more)) _ _ read_str-Extends (λ key.
        bind-Extends (read_le 4) (read_le 4) _ _ (read_le-Extends 4) (λ t.
          bind-Extends (read_value size t) (read_value (size + more) t) _ _ (read_value-Extends t)
            (λ v. ret-Extends _)))

  -- The entries of the shorter buffer come first in the longer one.
  read_entries-prefix :
      (n : ℕ) (b e : List ℕ)
      → (later : _) × (read_entries (size + more) n (b ++ e) ≡ read_entries size n b ++ later)
  unfolding read_entries
  read_entries-prefix zero b e = ([], refl)
  read_entries-prefix (suc n) b e = elim (Option-cases (read_entry size b)) [
    | inl stopped ↦ (read_entries (size + more) (suc n) (b ++ e), rw (stopped, read_entries) refl)
    | inr ((kv, rest), is_read) ↦
        let (later, ih) = read_entries-prefix n rest e in
        (
          later,
          rw (is_read, read_entry-Extends b e kv rest is_read, read_entries) (ap (λ t. kv ∷ t) ih),
        )
  ]

read_header-Extends : Extends read_header read_header
unfolding read_header
read_header-Extends = bind-Extends (read_le 4) (read_le 4) _ _ (read_le-Extends 4) (λ version.
    bind-Extends (read_le 8) (read_le 8) _ _ (read_le-Extends 8) (λ tensors.
      bind-Extends (read_le 8) (read_le 8) _ _ (read_le-Extends 8) (λ n. ret-Extends _)))

-- A file that says what a longer buffer adds: the same header, and further entries.
abbrev pub Continues : Parsed → Parsed → Type 0
Continues (parsed f) q =
    (g : File) × ((q ≡ parsed g)
      × ((g.version ≡ f.version)
          × ((g.tensor_count ≡ f.tensor_count)
              × ((later : List (Text × Value)) × (g.kv ≡ f.kv ++ later)))))
Continues p q = q ≡ p

parse_entries-Continues :
    (size more version tensors n : ℕ) (rest e : List ℕ)
    → Continues
        (parse_entries size (version, tensors, n) rest)
        (parse_entries (size + more) (version, tensors, n) (rest ++ e))
unfolding parse_entries
parse_entries-Continues size more version tensors n rest e =
    let (later, longer) = read_entries-prefix size more n rest e in
    elim (Bool-cases (ltb (2 ^ 20) n)) [
      | inl many ↦ rw many refl
      | inr few ↦ elim (Bool-cases (version == 0)) [
        | inl bad ↦ rw (few, bad) refl
        | inr good ↦ rw (few, good) (_, (refl, (refl, (refl, (later, longer)))))
      ]
    ]

length-drop : (n : ℕ) (b : List ℕ) → length (drop n b) ≡ length b - n
length-drop zero b = omega arith
length-drop (suc n) [] = omega arith
length-drop (suc n) (c ∷ b) = omega (arith, length-drop n b)

take_bytes-some : (k : ℕ) (b : List ℕ) → k ≤ length b → take_bytes k b ≡ some (take k b, drop k b)
unfolding take_bytes
take_bytes-some k b h = ground arith

read_le-some : (k : ℕ) (b : List ℕ) → k ≤ length b → (v : ℕ) × (read_le k b ≡ some (v, drop k b))
unfolding read_le
read_le-some k b h = (little_endian (take k b), rw (take_bytes-some k b h, ◌>>=◌) refl)

read_header-some :
    (b : List ℕ)
    → 20 ≤ length b
    → (h : ℕ × ℕ × ℕ) × (rest : List ℕ) × (read_header b ≡ some (h, rest))
unfolding read_header
read_header-some b h =
    let (version, e₁) = read_le-some 4 b (omega (arith, h)) in
    let b₁ = drop 4 b in
    let (tensors, e₂) = read_le-some 8 b₁ (omega (arith, length-drop 4 b)) in
    let b₂ = drop 8 b₁ in
    let (n, e₃) = read_le-some 8 b₂ (omega (arith, length-drop 4 b, length-drop 8 b₁)) in
    ((version, tensors, n), drop 8 b₂, rw (e₁, ◌>>=◌, e₂, ◌>>=◌, e₃, ◌>>=◌) refl)

header-Continues :
    (size more : ℕ) (b e : List ℕ)
    → 20 ≤ length b
    → Continues
        (parse_header size (read_header b))
        (parse_header (size + more) (read_header (b ++ e)))
unfolding parse_header
header-Continues size more b e enough =
    let ((version, tensors, n), rest, is_read) = read_header-some b enough in
    rw (is_read, read_header-Extends b e _ rest is_read)
      (parse_entries-Continues size more version tensors n rest e)

magic_cases :
    (b e : List ℕ)
    → 24 ≤ length b
    → ((parse b ≡ not_gguf) × (parse (b ++ e) ≡ not_gguf))
      ⊎ ((parse b ≡ parse_header (length b) (read_header (drop 4 b)))
          × (parse (b ++ e) ≡ parse_header (length (b ++ e)) (read_header (drop 4 (b ++ e)))))
unfolding parse
magic_cases b e h =
    let long : ltb (length b) 24 ≡ false = ground arith in
    let longer : ltb (length (b ++ e)) 24 ≡ false = ground (arith, length-append b e) in
    let same = take-++ 4 b e (omega (arith, h)) in
    elim (Bool-cases (text_eq (take 4 b) (bytes "GGUF"))) [
      | inl good ↦ inr (rw (long, good) refl, rw (longer, same, good) refl)
      | inr bad ↦ inl (rw (long, bad) refl, rw (longer, same, bad) refl)
    ]

-- Of a file of 24 bytes or more, what Parse finds in a prefix it also finds in the whole: it fails
-- alike, or it reads the same version and tensor count, and its entries are the first ones of the whole.
pub parse-Continues : (b e : List ℕ) → 24 ≤ length b → Continues (parse b) (parse (b ++ e))
parse-Continues b e h = elim (magic_cases b e h) [
  | inl (p, q) ↦ rw (p, q) refl
  | inr (p, q) ↦
      let fits : 20 ≤ length (drop 4 b) = omega (arith, length-drop 4 b) in
      rw (p, q, length-append b e, drop-++ 4 b e (omega (arith, h)))
        (header-Continues (length b) (length e) (drop 4 b) e fits)
]
