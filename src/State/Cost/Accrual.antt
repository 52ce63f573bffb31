-- ===== src/State/Cost/Accrual.antt =====
-- How the cost of internal/state/cost.go grows while a rig stays in one state.
use larri.Prelude.{
  ℕ, ◌+◌, ◌-◌, ◌*◌, ◌<◌, ◌≡◌, true, false, ◌&&◌, some, List, arith, ◌==◌, if◌then◌else◌,
}
use larri.Core.State.{LifecycleState, is_billable}
use larri.State.Journal.{Entry}
use larri.State.Cost.{
  Replay, start, replay, close, compute_billing, storage_billing, cost_billed, add_span,
}

add_mul : (m k p : ℕ) → (m + k) * p ≡ m * p + k * p
add_mul m k p = grind arith

-- In a billable state the rig is brought up to now by one span.
close_billing :
    (b m : ℕ) (r : Replay) (s : LifecycleState)
    → r.state ≡ some s
    → is_billable s ≡ true
    → 0 < r.since
    → ((close b (r.since + m) r).compute_usd ≡ (add_span b s m r).compute_usd)
      × ((close b (r.since + m) r).storage_usd ≡ (add_span b s m r).storage_usd)
      × ((close b (r.since + m) r).confirmed_absent ≡ r.confirmed_absent)
unfolding close is_billable
close_billing b m r s h bill stamped =
    let e : r.since + m - r.since ≡ m = omega arith in ground (arith, e)

span_later :
    (b m k : ℕ) (r : Replay) (s : LifecycleState)
    → (r.legacy && b == 0) ≡ false
    → ((add_span b s (m + k) r).compute_usd
        ≡ (add_span b s m r).compute_usd + (if compute_billing s then k * r.price_hr else 0))
      × ((add_span b s (m + k) r).storage_usd
          ≡ (add_span b s m r).storage_usd
            + (if compute_billing s then 0 else if storage_billing s then k * r.storage_hr else 0))
unfolding add_span
span_later b m k r s rules = ground (arith, add_mul m k r.price_hr, add_mul m k r.storage_hr)

-- A rig that stays for `k` longer in a billable state, under the current rules and with nothing
-- saying that it was never created, costs `k` times its hourly rate more while it runs, `k` times
-- its storage rate more while it is stopped, and never both.
pub cost_later :
    (es : List Entry) (s : LifecycleState) (m k b : ℕ)
    → let r = replay b start es in
      r.state ≡ some s
      → is_billable s ≡ true
      → 0 < r.since
      → r.confirmed_absent ≡ false
      → (r.legacy && b == 0) ≡ false
      → let before = cost_billed es (r.since + m) b in
        let after = cost_billed es (r.since + (m + k)) b in
        (after.compute_usd ≡ before.compute_usd + (if compute_billing s then k * r.price_hr else 0))
        × (after.storage_usd
            ≡ before.storage_usd
              + (if compute_billing s
                  then 0
                  else if storage_billing s
                  then k * r.storage_hr
                  else 0))
unfolding cost_billed
cost_later es s m k b h bill stamped absent rules =
    let r = replay b start es in
    let c = close_billing b m r s h bill stamped in
    let d = close_billing b (m + k) r s h bill stamped in
    ground (arith, c, d, span_later b m k r s rules)
