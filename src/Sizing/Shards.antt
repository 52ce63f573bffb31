-- ===== src/Sizing/Shards.antt =====
-- internal/sizing/shards.go: how many of a host's cards an engine can put a model on.
pub mod Laws
use larri.Prelude.{
  ℕ, zero, suc, ◌+◌, ◌*◌, ◌%◌, Bool, true, false, ◌||◌, not, leb, ltb, ◌==◌, if◌then◌else◌,
}
use larri.Sizing.Facts.{Facts}

unfoldable pub is_shardable : {F : Type 0} → Facts F → ℕ → Bool
is_shardable f n =
    if not (f.attention_heads % n == 0)
    then false
    else if f.kv_heads == 0
    then true
    else (f.kv_heads % n == 0) || (n % f.kv_heads == 0)

-- The loop, on fuel: `p` doubles, so `n` turns are enough.
unfoldable pub double_to : ℕ → ℕ → ℕ → ℕ
double_to zero n p = p
double_to (suc fuel) n p = elim (leb (p * 2) n) [ true ↦ double_to fuel n (p * 2) | false ↦ p ]

unfoldable pub largest_power_of_two : ℕ → ℕ
unfolding double_to
largest_power_of_two n = double_to n n 1

-- `for n := gpus; n > 1; n--`
unfoldable pub first_shardable : {F : Type 0} → Facts F → ℕ → ℕ
unfolding is_shardable
first_shardable f zero = 1
first_shardable f (suc zero) = 1
first_shardable f (suc (suc n)) =
    let rest = first_shardable f (suc n) in
    if is_shardable f (suc (suc n)) then suc (suc n) else rest

unfoldable pub shards : {F : Type 0} → Facts F → ℕ → Bool → ℕ
unfolding largest_power_of_two first_shardable
shards f gpus tensor_parallel =
    if leb gpus 1
    then 1
    else if not tensor_parallel
    then gpus
    else if f.attention_heads == 0
    then largest_power_of_two gpus
    else first_shardable f gpus
