-- ===== src/Llamacpp/Shards/Sets.antt =====
-- The sets of parts that internal/runtime/llamacpp/gguf.go derives from the name of one part.
use larri.Prelude.{
  ℕ, zero, suc, ◌+◌, ◌-◌, ◌/◌, ◌%◌, ◌≤◌, ◌<◌, ◌≡◌, ◌==◌, refl, ap, ◌∙◌, true, false, not, ◌||◌,
  some, [], ◌∷◌, ◌++◌, ltb, length, length-append, take, drop, arith,
}
use larri.Prelude.Text.{Text, text_eq, bytes, to_lower}
use larri.Prelude.Search.{base_name, has_byte}
use larri.Prelude.Decimal.{read_decimal}
use larri.Llamacpp.Shards.{
  ShardName, five_digits, shard_end, shard_match, pad5, part, parts_from, shard_total, files_of,
  shard_files, later_shard,
}

take_all : (s e : Text) → take (length s) (s ++ e) ≡ s
take_all [] e = refl
take_all (c ∷ s) e = ap (λ t. c ∷ t) (take_all s e)

drop_all : (s e : Text) → drop (length s) (s ++ e) ≡ e
drop_all [] e = refl
drop_all (c ∷ s) e = drop_all s e

pad5-digits :
    (n : ℕ)
    → five_digits
        (48 + n / 10000 % 10)
        (48 + n / 1000 % 10)
        (48 + n / 100 % 10)
        (48 + n / 10 % 10)
        (48 + n % 10)
      ≡ true
unfolding five_digits
pad5-digits n = ground arith

hyphens_lem : text_eq (to_lower (bytes "--of-")) (bytes "--of-") ≡ true
unfolding text_eq to_lower
hyphens_lem = refl

pad5_total : (n : ℕ) → n < 100000 → read_decimal (pad5 n) 0 ≡ some n
unfolding pad5 read_decimal
pad5_total n h = ground arith

-- Five bytes that read as `.gguf`, whatever their case.
abbrev pub IsExt : ℕ → ℕ → ℕ → ℕ → ℕ → Type 0
IsExt p g₁ g₂ u f = text_eq (to_lower (p ∷ g₁ ∷ g₂ ∷ u ∷ f ∷ [])) (bytes ".gguf") ≡ true

-- A set of `n` parts under a stem.
module _ (stem : Text) (n p g₁ g₂ u f : ℕ) where
  abbrev pub named : ShardName
  named = record { stem = stem; index = []; total = pad5 n; ext = p ∷ g₁ ∷ g₂ ∷ u ∷ f ∷ [] }

  abbrev pub numbered : ℕ → ShardName
  numbered i = record named { index = pad5 i }

  shard_match-part :
      (i : ℕ)
      → has_byte 10 stem ≡ false
      → IsExt p g₁ g₂ u f
      → shard_match (part named i) ≡ some (numbered i)
  unfolding shard_match shard_end part pad5
  shard_match-part i no_newline is_ext =
      let e = bytes "-" ++ (pad5 i ++ (bytes "-of-" ++ (pad5 n ++ (p ∷ g₁ ∷ g₂ ∷ u ∷ f ∷ [])))) in
      let hyphens : text_eq (to_lower (bytes "--of-")) (bytes "--of-") ≡ true = hyphens_lem in
      let long : length (stem ++ e) - 20 ≡ length stem = omega (arith, length-append stem e) in
      rw
        (
          long,
          take_all stem e,
          drop_all stem e,
          pad5-digits i,
          pad5-digits n,
          hyphens,
          is_ext,
          no_newline,
        )
        refl

  parts_from-index : (i j k : ℕ) → parts_from (numbered i) j k ≡ parts_from named j k
  unfolding parts_from part
  parts_from-index i j zero = refl
  parts_from-index i j (suc k) = ap (λ t. part named j ∷ t) (parts_from-index i (suc j) k)

  shard_total-numbered : (i : ℕ) → n < 100000 → shard_total (numbered i) ≡ n
  unfolding shard_total
  shard_total-numbered i h = rw (pad5_total n h, shard_total) refl

  files_of-numbered :
      (i : ℕ)
      → 1 ≤ n
      → n < 100000
      → files_of (part named i) (some (numbered i)) ≡ parts_from named 1 n
  unfolding files_of
  files_of-numbered i h k =
      let some_parts : ltb n 1 ≡ false = ground arith in
      rw (shard_total-numbered i k, some_parts) (parts_from-index i 1 n)

has_byte-append : (b : ℕ) (s e : Text) → has_byte b (s ++ e) ≡ (has_byte b s || has_byte b e)
unfolding has_byte
has_byte-append b [] e = refl
has_byte-append b (c ∷ s) e = ground (arith, has_byte-append b s e)

base_name-append : (s e : Text) → has_byte 47 e ≡ false → base_name (s ++ e) ≡ base_name s ++ e
unfolding base_name has_byte
base_name-append [] [] h = refl
base_name-append [] (c ∷ e) h = ground arith
base_name-append (c ∷ s) e h = ground (arith, has_byte-append 47 s e, base_name-append s e h)

base_name-has_byte : (b : ℕ) (s : Text) → has_byte b s ≡ false → has_byte b (base_name s) ≡ false
unfolding base_name has_byte
base_name-has_byte b [] h = refl
base_name-has_byte b (c ∷ s) h = ground (arith, base_name-has_byte b s)

pad5-no_slash : (n : ℕ) → has_byte 47 (pad5 n) ≡ false
unfolding pad5 has_byte
pad5-no_slash n = ground arith

ext-no_slash :
    (p g₁ g₂ u f : ℕ) → IsExt p g₁ g₂ u f → has_byte 47 (p ∷ g₁ ∷ g₂ ∷ u ∷ f ∷ []) ≡ false
unfolding has_byte text_eq to_lower
ext-no_slash p g₁ g₂ u f h = ground arith

dashes-no_slash : (has_byte 47 (bytes "-") ≡ false) × (has_byte 47 (bytes "-of-") ≡ false)
unfolding has_byte
dashes-no_slash = (refl, refl)

pad5_first : (i : ℕ) → i < 100000 → text_eq (pad5 i) (bytes "00001") ≡ (i == 1)
unfolding pad5 text_eq
pad5_first i h = ground arith

module _ (stem : Text) (n p g₁ g₂ u f : ℕ) (no_newline : has_byte 10 stem ≡ false)
    (is_ext : IsExt p g₁ g₂ u f) where
  end-no_slash :
      (i : ℕ)
      → has_byte 47
          (bytes "-" ++ (pad5 i ++ (bytes "-of-" ++ (pad5 n ++ (p ∷ g₁ ∷ g₂ ∷ u ∷ f ∷ [])))))
        ≡ false
  end-no_slash i =
      let ext = p ∷ g₁ ∷ g₂ ∷ u ∷ f ∷ [] in
      ground (
        arith,
        has_byte-append 47 (bytes "-") (pad5 i ++ (bytes "-of-" ++ (pad5 n ++ ext))),
        has_byte-append 47 (pad5 i) (bytes "-of-" ++ (pad5 n ++ ext)),
        has_byte-append 47 (bytes "-of-") (pad5 n ++ ext),
        has_byte-append 47 (pad5 n) ext,
        dashes-no_slash,
        pad5-no_slash i,
        pad5-no_slash n,
        ext-no_slash p g₁ g₂ u f is_ext,
      )

  shard_match-base_name :
      (i : ℕ)
      → shard_match (base_name (part (named stem n p g₁ g₂ u f) i))
        ≡ some (numbered (base_name stem) n p g₁ g₂ u f i)
  unfolding part
  shard_match-base_name i =
      let ext = p ∷ g₁ ∷ g₂ ∷ u ∷ f ∷ [] in
      let e = bytes "-" ++ (pad5 i ++ (bytes "-of-" ++ (pad5 n ++ ext))) in
      let no_slash : has_byte 47 e ≡ false = end-no_slash i in
      ap shard_match (base_name-append stem e no_slash)
      ∙ shard_match-part (base_name stem) n p g₁ g₂ u f i (base_name-has_byte 10 stem no_newline)
          is_ext

  later_shard-part :
      (i : ℕ) → i < 100000 → later_shard (part (named stem n p g₁ g₂ u f) i) ≡ not (i == 1)
  unfolding later_shard
  later_shard-part i h = rw (shard_match-base_name i, later_shard) (ap not (pad5_first i h))

  -- Of a set of up to 99999 parts, under any directory, with no line feed in its name and in any case of
  -- the extension, the name of each part gives the same files, all the parts in order; and of the parts
  -- just the first is none of the later ones, so that it alone is offered as the model.
  pub shard_files-part :
      (i : ℕ)
      → 1 ≤ n
      → n < 100000
      → i < 100000
      → (shard_files (part (named stem n p g₁ g₂ u f) i)
          ≡ parts_from (named stem n p g₁ g₂ u f) 1 n)
        × (later_shard (part (named stem n p g₁ g₂ u f) i) ≡ not (i == 1))
  unfolding shard_files
  shard_files-part i some_parts few small =
      let name = part (named stem n p g₁ g₂ u f) i in
      (
        ap (files_of name) (shard_match-part stem n p g₁ g₂ u f i no_newline is_ext)
            ∙ files_of-numbered stem n p g₁ g₂ u f i some_parts few,
        later_shard-part i small,
      )
