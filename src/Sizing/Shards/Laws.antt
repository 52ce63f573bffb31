-- ===== src/Sizing/Shards/Laws.antt =====
-- internal/sizing/shards.go: how the shard count stands to the model and the host.
use larri.Prelude.{
  ℕ, zero, suc, ◌+◌, ◌*◌, ◌^◌, ◌≤◌, ◌<◌, ◌≡◌, ◌⊎◌, inl, inr, refl, true, false, arith, leb, ◌==◌,
  Bool-cases,
}
use native.Mathlib.Nat.{pow-suc}
use larri.Sizing.Facts.{Facts}
use larri.Sizing.Shards.{is_shardable, double_to, largest_power_of_two, first_shardable, shards}

-- From a power of two `p` at most `n` the loop ends at the last one, if the fuel is more than n - p.
double_to_lem :
    (fuel n p k : ℕ)
    → p ≡ 2 ^ k
    → 0 < p
    → p ≤ n
    → n < p + fuel
    → let q = double_to fuel n p in ((j : ℕ) × (q ≡ 2 ^ j)) × (q ≤ n) × (n < q * 2)
unfolding double_to
double_to_lem zero n p k e pos le room = absurd (omega arith)
double_to_lem (suc fuel) n p k e pos le room = elim (Bool-cases (leb (p * 2) n)) [
  | inl h ↦
      rw (h, double_to)
        (double_to_lem fuel n (p * 2) (suc k) (rw pow-suc (omega arith)) (omega arith)
          (ground arith) (omega arith))
  | inr h ↦ rw (h, double_to) ((k, e), le, ground arith)
]

-- For a positive n this is a power of two, at most n, and its double is more than n.
pub largest_power_of_two_lem :
    (n : ℕ)
    → 0 < n
    → let q = largest_power_of_two n in ((j : ℕ) × (q ≡ 2 ^ j)) × (q ≤ n) × (n < q * 2)
unfolding largest_power_of_two
largest_power_of_two_lem n h = double_to_lem n n 1 0 refl (omega arith) h (omega arith)

top_or_below : (n m : ℕ) → m ≤ suc n → (m ≡ suc n) ⊎ (m ≤ n)
top_or_below n m h = grind arith

several : (n : ℕ) → 1 < n → leb n 1 ≡ false
several n h = ground arith

positive : (n : ℕ) → 0 < n → (n == 0) ≡ false
positive n h = ground arith

module _ {F : Type 0} (f : Facts F) where
  first_shardable_lem :
      (n : ℕ)
      → 0 < n
      → let s = first_shardable f n in
        (1 ≤ s)
        × (s ≤ n)
        × ((s ≡ 1) ⊎ (is_shardable f s ≡ true))
        × ((m : ℕ) → s < m → m ≤ n → is_shardable f m ≡ false)
  unfolding first_shardable
  first_shardable_lem zero h = absurd (omega arith)
  first_shardable_lem (suc zero) h =
      (omega arith, omega arith, inl refl, λ m a b. absurd (omega arith))
  first_shardable_lem (suc (suc n)) h = elim (Bool-cases (is_shardable f (suc (suc n)))) [
    | inl e ↦ rw e (omega arith, omega arith, inr e, λ m a b. absurd (omega arith))
    | inr e ↦
        let ih = first_shardable_lem (suc n) (omega arith) in
        rw e (
          ih.0,
          omega (arith, ih.1),
          ih.2,
          λ m a b. elim (top_or_below (suc n) m b) [
            | inl top ↦ rw top e
            | inr below ↦ ih.3 m a below
          ],
        )
  ]

  -- On a host with several cards, a tensor-parallel engine and a known head count: the shard count is
  -- between one and the host's cards, it is one or divides the model, and no larger count that the host
  -- has divides the model.
  pub shards_lem :
      (gpus : ℕ)
      → 1 < gpus
      → 0 < f.attention_heads
      → let s = shards f gpus true in
        (1 ≤ s)
        × (s ≤ gpus)
        × ((s ≡ 1) ⊎ (is_shardable f s ≡ true))
        × ((m : ℕ) → s < m → m ≤ gpus → is_shardable f m ≡ false)
  unfolding shards
  shards_lem gpus h k =
      rw (several gpus h)
        (rw (positive f.attention_heads k) (first_shardable_lem gpus (omega arith)))
