-- ===== src/State/Cost/Bounds.antt =====
-- The parts of the summary of internal/state/cost.go against one another.
use larri.Prelude.{ℕ, ◌+◌, ◌≤◌, ◌≡◌, refl, false, List, [], ◌∷◌, arith}
use larri.Core.State.{LifecycleState}
use larri.State.Journal.{Entry}
use larri.State.Cost.{
  Replay, start, replay_entry, replay, close, add_span, accrue, cost_billed, summarise,
}

record IsBalanced (r : Replay) : Type 0 where
  boot_le : r.boot_usd ≤ r.compute_usd + r.storage_usd
  boot_ready : r.reached_ready ≡ false → r.boot_usd ≡ 0

add_span-IsBalanced :
    (b m : ℕ) (r : Replay) (t : LifecycleState) → IsBalanced r → IsBalanced (add_span b t m r)
unfolding add_span
add_span-IsBalanced b m r t h = ground arith

accrue-IsBalanced : (b until : ℕ) (r : Replay) → IsBalanced r → IsBalanced (accrue b until r)
unfolding accrue
accrue-IsBalanced b until r h = ground arith

-- `take_rates` and `take_state` change no sum but the boot cost.
replay_entry-IsBalanced :
    (b : ℕ) (r : Replay) (e : Entry) → IsBalanced r → IsBalanced (replay_entry b r e)
unfolding replay_entry
replay_entry-IsBalanced b r e h = ground arith

replay-IsBalanced :
    (b : ℕ) (r : Replay) (es : List Entry) → IsBalanced r → IsBalanced (replay b r es)
unfolding replay
replay-IsBalanced b r [] h = h
replay-IsBalanced b r (e ∷ es) h =
    replay-IsBalanced b (replay_entry b r e) es (replay_entry-IsBalanced b r e h)

close-IsBalanced : (b now : ℕ) (r : Replay) → IsBalanced r → IsBalanced (close b now r)
unfolding close
close-IsBalanced b now r h = ground arith

-- In every summary the total is compute and storage together, what was spent before READY is no more
-- than the total, and nothing counts as spent before READY if READY was never reached.
pub cost_bounds :
    (es : List Entry) (now b : ℕ)
    → let c = cost_billed es now b in
      (c.total_usd ≡ c.compute_usd + c.storage_usd)
      × (c.boot_usd ≤ c.total_usd)
      × (c.reached_ready ≡ false → c.boot_usd ≡ 0)
unfolding cost_billed summarise
cost_bounds es now b =
    let h =
      close-IsBalanced b now (replay b start es)
        (replay-IsBalanced b start es (record { boot_le = omega arith; boot_ready = λ _. refl })) in
    ground (arith, h)
