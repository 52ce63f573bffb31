-- ===== src/State/Cost.antt =====
-- internal/state/cost.go: what a rig spent, replayed from the journal alone.
-- Rates are whole micro-dollars an hour and times nanoseconds. An amount of money is the exact product
-- of the two, the factor of one hour left out: 3 600 000 000 000 units are a micro-dollar. So the sums
-- that Go makes in float64 are exact here. A legacy storage rate is divided in whole micro-dollars.
pub mod Ending
pub mod Accrual
pub mod Bounds
use larri.Prelude.{
  ℕ, ◌+◌, ◌-◌, ◌*◌, ◌/◌, Bool, true, false, ◌&&◌, ◌||◌, not, Option, none, some, List, [], ◌∷◌, ltb,
  ◌==◌, if◌then◌else◌,
}
use larri.Prelude.Int.{ℤ, pos, sub_ℕ, is_zero}
use larri.Prelude.Text.{Text, is_empty}
use larri.Core.State.{
  LifecycleState, idle, creating, provisioned, bootstrapping, ready, degraded, draining, failed,
  orphaned, searching, selected, destroyed, is_destroyed, is_ready, is_billable,
}
use larri.Core.Termination.{CostSummary, Termination, evidence_at, nothing_created}
use larri.Core.Rig.{Rig}
use larri.State.Journal.{Entry, entries_for}

unfoldable pub compute_billing : LifecycleState → Bool
compute_billing creating = true
compute_billing provisioned = true
compute_billing bootstrapping = true
compute_billing ready = true
compute_billing degraded = true
compute_billing draining = true
compute_billing failed = true
compute_billing orphaned = true
compute_billing _ = false

unfoldable pub storage_billing : LifecycleState → Bool
storage_billing idle = false
storage_billing searching = false
storage_billing selected = false
storage_billing destroyed = false
storage_billing _ = true

-- The variables of `cost`. `state` is none until the first entry (`haveState`), and a time of 0 is
-- Go's zero time.
pub record Replay : Type 0 where
  pub compute_usd : ℕ
  pub storage_usd : ℕ
  pub boot_usd : ℕ
  pub ran : ℤ
  pub reached_ready : Bool
  pub state : Option LifecycleState
  pub since : ℕ
  pub price_hr : ℕ
  pub storage_hr : ℕ
  pub first_at : ℕ
  pub ready_at : ℕ
  pub confirmed_absent : Bool
  pub legacy : Bool

abbrev pub start : Replay
start = record {
  compute_usd = 0;
  storage_usd = 0;
  boot_usd = 0;
  ran = pos 0;
  reached_ready = false;
  state = none;
  since = 0;
  price_hr = 0;
  storage_hr = 0;
  first_at = 0;
  ready_at = 0;
  confirmed_absent = false;
  legacy = false;
}

-- The two sums of `accrue`, over a span of time in one state.
unfoldable pub add_span : ℕ → LifecycleState → ℕ → Replay → Replay
unfolding compute_billing storage_billing
add_span billed_hr s span r =
    if r.legacy && billed_hr == 0
    then record r {
      compute_usd = if compute_billing s then r.compute_usd + span * r.price_hr else r.compute_usd;
      storage_usd =
          if storage_billing s then r.storage_usd + span * r.storage_hr else r.storage_usd;
    }
    else if compute_billing s
    then record r { compute_usd = r.compute_usd + span * r.price_hr }
    else if storage_billing s
    then record r { storage_usd = r.storage_usd + span * r.storage_hr }
    else r

unfoldable pub accrue : ℕ → ℕ → Replay → Replay
unfolding add_span
accrue billed_hr until r = elim r.state [
  | none ↦ r
  | some s ↦
      if r.since == 0 || ltb until r.since then r else add_span billed_hr s (until - r.since) r
]

abbrev pub legacy_disk_gb : ℕ
legacy_disk_gb = 60

abbrev pub hours_per_month : ℕ
hours_per_month = 720

unfoldable pub says_nothing_created : Entry → Bool
says_nothing_created e = elim e.termination [
  | none ↦ false
  | some t ↦ not (is_empty (evidence_at nothing_created t.evidence))
]

-- `haveState && state == core.StateDestroyed`
unfoldable pub has_ended : Replay → Bool
has_ended r = elim r.state [ none ↦ false | some s ↦ is_destroyed s ]

-- The rates of an entry.
unfoldable pub take_rates : ℕ → Entry → Replay → Replay
take_rates billed_hr e r =
    let legacy = not e.billed in
    record r {
      legacy = legacy;
      price_hr =
          if ltb 0 e.price_hr
          then (if legacy && ltb 0 billed_hr then billed_hr else e.price_hr)
          else r.price_hr;
      storage_hr =
          if ltb 0 e.storage_hr
          then (if legacy then e.storage_hr * legacy_disk_gb / hours_per_month else e.storage_hr)
          else r.storage_hr;
    }

-- The state of an entry, the first READY and the end.
unfoldable pub take_state : Bool → Entry → Replay → Replay
take_state ended e r =
    let first_ready = is_ready e.to && r.ready_at == 0 in
    record r {
      state = some e.to;
      since = if ended then r.since else e.at;
      ready_at = if first_ready then e.at else r.ready_at;
      boot_usd = if first_ready then r.compute_usd + r.storage_usd else r.boot_usd;
      reached_ready = r.reached_ready || first_ready;
      ran = elim e.termination [
        | none ↦ r.ran
        | some t ↦ if ended then r.ran else sub_ℕ e.at r.first_at
      ];
    }

-- What stands in the loop before `continue`.
unfoldable pub open_entry : ℕ → Entry → Replay → Replay
unfolding accrue says_nothing_created
open_entry billed_hr e r = accrue billed_hr e.at (record r {
  first_at = if r.first_at == 0 then e.at else r.first_at;
  confirmed_absent = r.confirmed_absent || says_nothing_created e;
})

-- One turn of the loop over the entries.
unfoldable pub replay_entry : ℕ → Replay → Entry → Replay
unfolding open_entry has_ended take_rates take_state
replay_entry billed_hr r e =
    let r' = open_entry billed_hr e r in
    let ended = has_ended r' in
    if ended && not (is_destroyed e.to) then r' else take_state ended e (take_rates billed_hr e r')

unfoldable pub replay : ℕ → Replay → List Entry → Replay
replay billed_hr r [] = r
replay billed_hr r (e ∷ es) = replay billed_hr (replay_entry billed_hr r e) es

-- What stands behind the loop: a rig still billing is brought up to now.
unfoldable pub close : ℕ → ℕ → Replay → Replay
unfolding accrue
close billed_hr now r =
    if elim r.state [ none ↦ false | some s ↦ is_billable s && not (is_destroyed s) ]
    then (let r' = accrue billed_hr now r in record r' { ran = sub_ℕ now r.first_at })
    else if is_zero r.ran && not (r.first_at == 0) && not (r.since == 0)
    then record r { ran = sub_ℕ r.since r.first_at }
    else r

unfoldable pub summarise : Replay → CostSummary
summarise r =
    let compute = if r.confirmed_absent then 0 else r.compute_usd in
    let storage = if r.confirmed_absent then 0 else r.storage_usd in
    record {
      total_usd = compute + storage;
      compute_usd = compute;
      storage_usd = storage;
      boot_usd = if r.confirmed_absent then 0 else r.boot_usd;
      ran = r.ran;
      price_hr = r.price_hr;
      reached_ready = r.reached_ready;
    }

-- `cost`, then `Cost`, `CostFor` and `CostForRig`.
unfoldable pub cost_billed : List Entry → ℕ → ℕ → CostSummary
unfolding replay close summarise
cost_billed entries now billed_hr = summarise (close billed_hr now (replay billed_hr start entries))

unfoldable pub cost : List Entry → ℕ → CostSummary
unfolding cost_billed
cost entries now = cost_billed entries now 0

unfoldable pub cost_for : List Entry → Text → ℕ → CostSummary
unfolding cost
cost_for entries id now = cost (entries_for entries id) now

unfoldable pub cost_for_rig : List Entry → Rig → ℕ → CostSummary
unfolding cost_billed
cost_for_rig entries r now =
    cost_billed (entries_for entries r.id) now
      (elim r.instance_of [ none ↦ 0 | some i ↦ i.price_hr ])
