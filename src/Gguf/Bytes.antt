-- ===== src/Gguf/Bytes.antt =====
-- Readers of bytes: what the parser of internal/gguf/gguf.go is made of.
use larri.Prelude.{
  ℕ, ◌+◌, ◌*◌, Option, none, some, List, [], ◌∷◌, leb, length, take, drop, if◌then◌else◌,
}

abbrev pub Reader : Type 0 → Type 0
Reader A = List ℕ → Option (A × List ℕ)

abbrev pub ret : {A : Type 0} → A → Reader A
ret a b = some (a, b)

infixl 5 ◌>>=◌
abbrev pub ◌>>=◌ : {A B : Type 0} → Reader A → (A → Reader B) → Reader B
◌>>=◌ m f b = elim (m b) [ none ↦ none | some (a, rest) ↦ f a rest ]

-- `need`, and the bytes that it makes sure of.
unfoldable pub take_bytes : ℕ → Reader (List ℕ)
take_bytes n b = if leb n (length b) then some (take n b, drop n b) else none

-- The number whose bytes these are, the lowest first.
unfoldable pub little_endian : List ℕ → ℕ
little_endian [] = 0
little_endian (c ∷ cs) = c + 256 * little_endian cs

unfoldable pub read_le : ℕ → Reader ℕ
unfolding take_bytes little_endian
read_le k = take_bytes k >>= λ cs. ret (little_endian cs)
