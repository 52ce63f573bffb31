-- ===== src/Llamacpp/Shards.antt =====
-- internal/runtime/llamacpp/gguf.go: the parts of a GGUF that is published in several files.
-- A listing gives the files with their sizes; of one name the last counts.
pub mod Sets
use larri.Prelude.{
  ℕ, zero, suc, ◌+◌, ◌-◌, ◌*◌, ◌/◌, ◌%◌, ◌^◌, ◌==◌, Bool, true, false, not, ◌&&◌, ◌||◌, Option,
  none, some, List, [], ◌∷◌, ◌++◌, ltb, leb, length, take, drop, map, if◌then◌else◌,
}
use larri.Prelude.Text.{Text, text_eq, bytes, to_lower}
use larri.Prelude.Search.{base_name, has_byte}
use larri.Prelude.Decimal.{read_decimal}

-- The groups of `shardPattern`.
pub record ShardName : Type 0 where
  pub stem : Text
  pub index : Text
  pub total : Text
  pub ext : Text

abbrev pub is_digit : ℕ → Bool
is_digit c = leb 48 c && leb c 57

unfoldable pub five_digits : ℕ → ℕ → ℕ → ℕ → ℕ → Bool
five_digits a b c d e = is_digit a && is_digit b && is_digit c && is_digit d && is_digit e

-- The twenty bytes at the end of the pattern, upper and lower case alike.
unfoldable pub shard_end : Text → Text → Option ShardName
shard_end stem
      (d₁ ∷ a ∷ b ∷ c ∷ d ∷ e ∷ d₂ ∷ o ∷ f ∷ d₃ ∷ v ∷ w ∷ x ∷ y ∷ z ∷ p ∷ g₁ ∷ g₂ ∷ u ∷ f' ∷ []) =
    if five_digits a b c d e
      && five_digits v w x y z
      && text_eq (to_lower (d₁ ∷ d₂ ∷ o ∷ f ∷ d₃ ∷ [])) (bytes "--of-")
      && text_eq (to_lower (p ∷ g₁ ∷ g₂ ∷ u ∷ f' ∷ [])) (bytes ".gguf")
      && not (has_byte 10 stem)
    then some (record {
      stem = stem;
      index = a ∷ b ∷ c ∷ d ∷ e ∷ [];
      total = v ∷ w ∷ x ∷ y ∷ z ∷ [];
      ext = p ∷ g₁ ∷ g₂ ∷ u ∷ f' ∷ [];
    })
    else none
shard_end stem _ = none

-- shardPattern.FindStringSubmatch. What `.*` takes holds no line feed.
unfoldable pub shard_match : Text → Option ShardName
unfolding shard_end five_digits
shard_match f = shard_end (take (length f - 20) f) (drop (length f - 20) f)

-- `%05d`, of a number below a hundred thousand.
unfoldable pub pad5 : ℕ → Text
pad5 n =
    (48 + n / 10000 % 10)
    ∷ (48 + n / 1000 % 10)
    ∷ (48 + n / 100 % 10)
    ∷ (48 + n / 10 % 10)
    ∷ (48 + n % 10)
    ∷ []

unfoldable pub part : ShardName → ℕ → Text
unfolding pad5
part m i = m.stem ++ (bytes "-" ++ (pad5 i ++ (bytes "-of-" ++ (m.total ++ m.ext))))

-- The loop of ShardFiles, from its first index.
unfoldable pub parts_from : ShardName → ℕ → ℕ → List Text
unfolding part
parts_from m i zero = []
parts_from m i (suc left) = part m i ∷ parts_from m (suc i) left

-- strconv.Atoi of five digits; none, where they are no digits, does not come from the pattern.
unfoldable pub shard_total : ShardName → ℕ
unfolding read_decimal
shard_total m = elim (read_decimal m.total 0) [ none ↦ 0 | some n ↦ n ]

unfoldable pub files_of : Text → Option ShardName → List Text
unfolding parts_from shard_total
files_of first none = first ∷ []
files_of first (some m) =
    if ltb (shard_total m) 1 then first ∷ [] else parts_from m 1 (shard_total m)

unfoldable pub shard_files : Text → List Text
unfolding shard_match files_of
shard_files first = files_of first (shard_match first)

unfoldable pub later_shard : Text → Bool
unfolding shard_match base_name text_eq
later_shard f = elim (shard_match (base_name f)) [
  | none ↦ false
  | some m ↦ not (text_eq m.index (bytes "00001"))
]

abbrev pub Listing : Type 0
Listing = List (Text × ℕ)

-- `sizes[f]`: none where the repository does not list the file.
unfoldable pub size_of : Listing → Text → Option ℕ
unfolding text_eq
size_of [] f = none
size_of ((g, n) ∷ rest) f = elim (size_of rest f) [
  | some m ↦ some m
  | none ↦ if text_eq g f then some n else none
]

-- completeSet, over the parts: whether each is listed.
unfoldable pub all_listed : Listing → List Text → Bool
unfolding size_of
all_listed listed [] = true
all_listed listed (p ∷ ps) =
    let rest = all_listed listed ps in elim (size_of listed p) [ none ↦ false | some _ ↦ rest ]

unfoldable pub complete_set : Listing → Text → Bool
unfolding all_listed shard_files
complete_set listed first = all_listed listed (shard_files first)

-- The loop of shardBytes, with the total so far; uint64 wraps.
unfoldable pub bytes_from : Listing → List Text → ℕ → ℕ
unfolding size_of
bytes_from sizes [] total = total
bytes_from sizes (p ∷ ps) total =
    let more : ℕ → ℕ = λ b. bytes_from sizes ps ((total + b) % 2 ^ 64) in
    elim (size_of sizes p) [ none ↦ 0 | some b ↦ if b == 0 then 0 else more b ]

unfoldable pub shard_bytes : Listing → Text → ℕ
unfolding bytes_from shard_files
shard_bytes sizes first = bytes_from sizes (shard_files first) 0
