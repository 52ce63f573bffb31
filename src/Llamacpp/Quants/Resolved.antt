-- ===== src/Llamacpp/Quants/Resolved.antt =====
-- What internal/runtime/llamacpp/gguf.go has checked of the file that it resolves to.
use mathlib.Core.Path.{subst}
use larri.Prelude.{
  ℕ, ◌+◌, ◌%◌, ◌^◌, ◌≡◌, ◌≤◌, ◌<◌, ◌==◌, refl, Bool, true, false, not, ◌⊎◌, inl, inr, none, some,
  List, [], ◌∷◌, length, map, filter, filter-All, All-filter, All, All-Among, Among, arith,
  Bool-cases, Option-cases, if◌then◌else◌,
}
use larri.Prelude.Text.{Text, text_eq, text_eq→eq, to_lower, trim_space}
use larri.Prelude.Order.{sort_stable, text_lt}
use larri.Prelude.Order.Sorting.{Sorted, sort_stable-All, All-sort_stable, sort_stable-Sorted}
use larri.Llamacpp.Shards.{
  Listing, size_of, shard_files, all_listed, complete_set, bytes_from, shard_bytes,
}
use larri.Llamacpp.Quants.{
  is_auxiliary, is_candidate, shorter, head_of, pick_quant, Weights, resolved, refused, not_listed,
  incomplete, auxiliary, other_quant, no_quant, named_file, is_gguf, resolve_gguf, split_ref,
}

-- The listing has the file, at some size.
abbrev pub IsListed : Listing → Text → Type 0
IsListed listed f = (n : ℕ) × Among (f, n) listed

size_of-IsListed : (l : Listing) (f : Text) (n : ℕ) → size_of l f ≡ some n → Among (f, n) l
unfolding size_of
size_of-IsListed [] f n h = cc
size_of-IsListed ((g, k) ∷ rest) f n h = elim (Option-cases (size_of rest f)) [
  | inr (m, e) ↦ inr (size_of-IsListed rest f n (ground (arith, e, h)))
  | inl e ↦ elim (Bool-cases (text_eq g f)) [
    | inl t ↦ let same = text_eq→eq g f t in inl (ground (arith, same, e, t, h))
    | inr t ↦ absurd (ground (arith, e, t, h))
  ]
]

all_listed-All : (l : Listing) (ps : List Text) → all_listed l ps ≡ true → All (IsListed l) ps
unfolding all_listed
all_listed-All l [] h = tt
all_listed-All l (p ∷ ps) h = elim (Option-cases (size_of l p)) [
  | inl e ↦ absurd (ground (arith, e, h))
  | inr (n, e) ↦ ((n, size_of-IsListed l p n e), all_listed-All l ps (ground (arith, e, h)))
]

-- The exact total of the files, of one that is not listed as nothing.
abbrev pub total_of : Listing → List Text → ℕ
total_of l [] = 0
total_of l (p ∷ ps) = elim (size_of l p) [ none ↦ 0 | some b ↦ b ] + total_of l ps

bytes_from-stop :
    (l : Listing) (p : Text) (ps : List Text) (t : ℕ)
    → size_of l p ≡ none
    → bytes_from l (p ∷ ps) t ≡ 0
unfolding bytes_from
bytes_from-stop l p ps t e = rw (e, bytes_from) refl

bytes_from-next :
    (l : Listing) (p : Text) (ps : List Text) (t b : ℕ)
    → size_of l p ≡ some b
    → bytes_from l (p ∷ ps) t ≡ (if b == 0 then 0 else bytes_from l ps ((t + b) % 2 ^ 64))
unfolding bytes_from
bytes_from-next l p ps t b e = rw (e, bytes_from) refl

total_of-next :
    (l : Listing) (p : Text) (ps : List Text) (b : ℕ)
    → size_of l p ≡ some b
    → total_of l (p ∷ ps) ≡ b + total_of l ps
total_of-next l p ps b e = rw e refl

bytes_from_lem :
    (l : Listing) (ps : List Text) (t : ℕ)
    → t < 2 ^ 64
    → (bytes_from l ps t ≡ 0) ⊎ (bytes_from l ps t ≡ (t + total_of l ps) % 2 ^ 64)
unfolding bytes_from
bytes_from_lem l [] t k = inr (omega arith)
bytes_from_lem l (p ∷ ps) t k = elim (Option-cases (size_of l p)) [
  | inl e ↦ inl (bytes_from-stop l p ps t e)
  | inr (b, e) ↦
      let rest = bytes_from_lem l ps ((t + b) % 2 ^ 64) (omega arith) in
      ground (arith, rest, bytes_from-next l p ps t b e, total_of-next l p ps b e)
]

head_of-All : (P : Text → Type 0) (xs : List Text) (f : Text) → All P xs → head_of xs ≡ some f → P f
unfolding head_of
head_of-All P [] f h e = absurd (cc e)
head_of-All P (x ∷ xs) f h e = let same : x ≡ f = ground (arith, e) in rw (← same) h.0

head_of-Sorted :
    (P : Text → Text → Type 0) (xs : List Text) (f : Text)
    → ((x : Text) → P x x)
    → Sorted P xs
    → head_of xs ≡ some f
    → All (P f) xs
unfolding head_of
head_of-Sorted P [] f r h e = absurd (cc e)
head_of-Sorted P (x ∷ xs) f r h e =
    let same : x ≡ f = ground (arith, e) in subst (λ y. All (P y) (x ∷ xs)) same (r x, h.0)

NoLonger : Text → Text → Type 0
NoLonger f g = length f ≤ length g

-- What pickQuant promises of its answer among the files.
pub record IsPick (files : List Text) (quant f : Text) : Type 0 where
  pub there : Among f files
  pub wanted : is_candidate (to_lower (trim_space quant)) f ≡ true
  pub shortest :
      All (λ g. is_candidate (to_lower (trim_space quant)) g ≡ true → length f ≤ length g) files

-- The file that is picked stands in the listing and is a candidate: no later part of a set, nothing
-- auxiliary and, where a quantization is asked for, one that carries it. Of the candidates of the
-- listing none has a shorter name.
pub pick_quant-IsPick :
    (files : List Text) (quant f : Text) → pick_quant files quant ≡ some f → IsPick files quant f
unfolding pick_quant NoLonger
pick_quant-IsPick files quant f h =
    let q = to_lower (trim_space quant) in
    let sorted = sort_stable text_lt files in
    let kept = filter (is_candidate q) sorted in
    let seen = sort_stable-All text_lt (λ g. Among g files) files (All-Among files) in
    let good =
      sort_stable-All shorter _ kept
        (filter-All (is_candidate q) (λ g. Among g files) sorted seen) in
    let here = head_of-All (λ g. (is_candidate q g ≡ true) × Among g files) _ f good h in
    let least =
      head_of-Sorted NoLonger _ f (λ x. omega arith)
        (sort_stable-Sorted shorter NoLonger (λ x y e. ground (arith, e))
          (λ x y e. ground (arith, e)) (λ x y z a b. omega (arith, a, b)) kept)
        h in
    record {
      there = here.1;
      wanted = here.0;
      shortest =
          All-sort_stable text_lt _ files
            (All-filter (is_candidate q) _ sorted (All-sort_stable shorter _ kept least));
    }

shard_bytes_lem :
    (l : Listing) (f : Text)
    → (shard_bytes l f ≡ 0) ⊎ (shard_bytes l f ≡ total_of l (shard_files f) % 2 ^ 64)
unfolding shard_bytes
shard_bytes_lem l f = ground (arith, bytes_from_lem l (shard_files f) 0 (omega arith))

picked-model :
    (files : List Text) (quant f : Text) → pick_quant files quant ≡ some f → is_auxiliary f ≡ false
unfolding is_candidate
picked-model files quant f e = ground (arith, (pick_quant-IsPick files quant f e).wanted)

-- What is settled of weights that a listing resolves to.
pub record IsSound (siblings : Listing) (w : Weights) : Type 0 where
  pub complete : All (IsListed (filter is_gguf siblings)) (shard_files w.file)
  pub model : is_auxiliary w.file ≡ false
  pub measured :
      (w.size ≡ 0) ⊎ (w.size ≡ total_of (filter is_gguf siblings) (shard_files w.file) % 2 ^ 64)

settled :
    (siblings : Listing) (f q : Text)
    → complete_set (filter is_gguf siblings) f ≡ true
    → is_auxiliary f ≡ false
    → IsSound siblings
        (record { file = f; size = shard_bytes (filter is_gguf siblings) f; quantization = q })
unfolding complete_set
settled siblings f q c m = record {
  complete = all_listed-All _ _ c;
  model = m;
  measured = shard_bytes_lem (filter is_gguf siblings) f;
}

guarded :
    (whole aux other unnamed : Bool) (w' w : Weights)
    → (if not whole
        then refused incomplete
        else if aux
        then refused auxiliary
        else if other
        then refused other_quant
        else if unnamed
        then refused no_quant
        else resolved w')
      ≡ resolved w
    → (whole ≡ true) × (aux ≡ false) × (w' ≡ w)
guarded whole aux other unnamed w' w h = ground arith

unlisted :
    (file quant : Text) (sizes : Listing)
    → size_of sizes file ≡ none
    → named_file file quant sizes ≡ refused not_listed
unfolding named_file
unlisted file quant sizes e = rw (e, named_file) refl

listed-IsSound :
    (file quant : Text) (siblings : Listing) (w : Weights) (n : ℕ)
    → size_of (filter is_gguf siblings) file ≡ some n
    → named_file file quant (filter is_gguf siblings) ≡ resolved w
    → IsSound siblings w
unfolding named_file
listed-IsSound file quant siblings w n e =
    rw (e, named_file)
      (λ k.
        let g = guarded _ _ _ _ _ w k in
        subst (IsSound siblings) g.2 (settled siblings _ _ g.0 g.1))

named_file-IsSound :
    (file quant : Text) (siblings : Listing) (w : Weights)
    → named_file file quant (filter is_gguf siblings) ≡ resolved w
    → IsSound siblings w
named_file-IsSound file quant siblings w h =
    elim (Option-cases (size_of (filter is_gguf siblings) file)) [
      | inl e ↦ absurd (cc (unlisted file quant (filter is_gguf siblings) e, h))
      | inr (n, e) ↦ listed-IsSound file quant siblings w n e h
    ]

-- Of weights that a listing resolves to, the file is no auxiliary one, each part of its set is listed as
-- a .gguf file, and the size is the parts' total, as uint64 adds it, or none at all.
pub resolve_gguf-IsSound :
    (ref quant : Text) (siblings : Listing) (w : Weights)
    → resolve_gguf ref quant siblings ≡ resolved w
    → IsSound siblings w
unfolding resolve_gguf
resolve_gguf-IsSound ref quant siblings w h =
    let sizes = filter is_gguf siblings in
    elim (Option-cases (pick_quant (map (λ s. s.0) sizes) quant)) [
      | inl e ↦ ground (arith, e, h, named_file-IsSound (split_ref ref).1 quant siblings w)
      | inr (f, e) ↦ ground (
        arith,
        e,
        h,
        named_file-IsSound (split_ref ref).1 quant siblings w,
        settled siblings f quant,
        picked-model (map (λ s. s.0) sizes) quant f e,
      )
    ]
