-- ===== src/Daemon/Supervise.antt =====
-- internal/daemon/supervise.go: the polls of the supervisor over a serving rig.
-- A poll is given what the world answers at that moment: the clock, the state directory as other
-- processes have left it, the proxy's idle time, the health probe and the provider's Get. Money is the
-- exact product of State.Cost; the ceiling is in the same unit. The texts that
-- print figures, in the warnings and in the summary and the evidence of an ending, are left empty.
pub mod Endings
pub mod Health
pub mod Warnings
use larri.Prelude.{
  ℕ, zero, suc, ◌+◌, ◌-◌, ◌*◌, ◌≡◌, Bool, true, false, ◌&&◌, ◌||◌, not, Option, none, some, List,
  [], ◌∷◌, ◌++◌, ltb, leb, ◌==◌, if◌then◌else◌,
}
use larri.Prelude.Text.{Text, bytes}
use larri.Prelude.Int.{pos}
use larri.Core.State.{LifecycleState, degraded, ready, is_destroyed, is_degraded}
use larri.Core.Termination.{
  Actor, operator, policy, provider, ReasonCode, operator_request, idle_timeout, budget_ceiling,
  instance_gone, Termination, CostSummary,
}
use larri.Core.Rig.{Rig}
use larri.State.Journal.{read_journal}
use larri.State.Store.{Disk, Io, Loaded, rig, missing, failed_load, load, transition}
use larri.State.Cost.{cost_for_rig}

-- config.IdleAction, with config.Idle and config.Budget.
pub data IdleAction : Type 0 where
  idle_destroy idle_warn : IdleAction

abbrev pub is_idle_destroy : IdleAction → Bool
is_idle_destroy idle_destroy = true
is_idle_destroy idle_warn = false

-- Durations are nanoseconds.
pub record SupervisePolicy : Type 0 where
  pub idle_timeout_ns : ℕ
  pub idle_action : IdleAction
  pub max_usd : ℕ
  -- read by nothing in the supervisor
  pub budget_action : IdleAction
  pub health_interval_ns : ℕ
  pub warn_ns : ℕ

abbrev second : ℕ
second = 1000000000

unfoldable pub health_interval : SupervisePolicy → ℕ
health_interval p = if ltb 0 p.health_interval_ns then p.health_interval_ns else 30 * second

unfoldable pub warn_lead : SupervisePolicy → ℕ
warn_lead p = if ltb 0 p.warn_ns then p.warn_ns else 120 * second

-- The answer of the provider's Get: an error, an instance, or a clean not found.
pub data GetAnswer : Type 0 where
  unreachable present absent : GetAnswer

pub record Poll : Type 0 where
  pub now : ℕ
  pub disk : Disk
  pub io : Io
  -- does reading the journal succeed?
  pub journal_reads : Bool
  pub idle_for : ℕ
  pub probe_passes : Bool
  pub get_answer : GetAnswer

-- The variables of the loop, and the rig it holds.
pub record Watch : Type 0 where
  pub held : Rig
  pub last_health : ℕ
  pub warned_idle : Bool
  pub warned_spend : Bool
  pub failures : ℕ

pub data Warned : Type 0 where
  budget_left idle_over idle_soon : Warned
  probe_failed : ℕ → Warned
  recovered : ℕ → Warned

abbrev pub no_cost : CostSummary
no_cost = record {
  total_usd = 0;
  compute_usd = 0;
  storage_usd = 0;
  boot_usd = 0;
  ran = pos 0;
  price_hr = 0;
  reached_ready = false;
}

unfoldable pub ending : Actor → ReasonCode → ℕ → Termination
ending who why now = record {
  actor = who;
  code = why;
  at = now;
  summary = [];
  evidence = [];
  cost = no_cost;
}

-- endedElsewhere: the stored rig, its ending filled in, if it is stored as destroyed.
unfoldable pub ended_elsewhere : ℕ → Loaded → Option (Rig × Termination)
ended_elsewhere now (rig stored) =
    if is_destroyed stored.state
    then (elim stored.end [
      | none ↦
          let t = record (ending operator operator_request now) {
            summary = bytes "ended by another larri process";
          } in
          some (record stored { end = some t }, t)
      | some t ↦ some (stored, t)
    ])
    else none
ended_elsewhere now missing = none
ended_elsewhere now (failed_load e) = none

unfoldable pub accrued : Poll → Rig → CostSummary
accrued w r =
    if w.journal_reads then cost_for_rig (read_journal w.disk.journal) r w.now else no_cost

unfoldable pub over_budget : SupervisePolicy → Poll → Rig → Bool
over_budget p w r = ltb 0 p.max_usd && leb p.max_usd (accrued w r).total_usd

-- spendLead
unfoldable pub spend_lead : SupervisePolicy → Rig → ℕ
spend_lead p r = r.offer.price_hr * warn_lead p

unfoldable pub budget_soon : SupervisePolicy → Poll → Rig → Bool
unfolding spend_lead
budget_soon p w r = ltb 0 p.max_usd && leb (p.max_usd - (accrued w r).total_usd) (spend_lead p r)

unfoldable pub idle_expired : SupervisePolicy → Poll → Bool
idle_expired p w = ltb 0 p.idle_timeout_ns && leb p.idle_timeout_ns w.idle_for

-- What the idle switch says when it does not end the rig: the new `warnedIdle`, and the warning.
unfoldable pub idle_warning : SupervisePolicy → Poll → Bool → Bool × List Warned
unfolding idle_expired
idle_warning p w warned =
    if not (ltb 0 p.idle_timeout_ns)
    then (warned, [])
    else if idle_expired p w
    then (true, if warned then [] else idle_over ∷ [])
    else if leb p.idle_timeout_ns (w.idle_for + warn_lead p) && is_idle_destroy p.idle_action
    then (true, if warned then [] else idle_soon ∷ [])
    else (false, [])

-- The outcome of one poll: the disk it leaves, and the loop goes on or the rig is to end.
pub record Polled : Type 0 where
  pub left : Disk
  pub watch : Watch
  pub warned : List Warned
  pub ended : Option Termination

unfoldable pub on : Disk → Watch → List Warned → Polled
on d s ws = record { left = d; watch = s; warned = ws; ended = none }

-- instanceGone, for a rig with an instance.
unfoldable pub is_gone : Poll → Rig → Bool
is_gone w r = elim r.instance_of [
  | none ↦ false
  | some i ↦ elim w.get_answer [ absent ↦ true | _ ↦ false ]
]

abbrev pub failing_note : Text
failing_note = bytes "health probes failing"

abbrev pub recovered_note : Text
recovered_note = bytes "health probe recovered"

-- A failed probe.
unfoldable pub probe_fails : Poll → Watch → List Warned → Polled
unfolding is_gone ending on
probe_fails w s ws =
    let n = s.failures + 1 in
    let s' = record s { failures = n } in
    let ws' = ws ++ (probe_failed n ∷ []) in
    if leb 3 n && is_gone w s.held
    then record {
      left = w.disk;
      watch = s';
      warned = ws';
      ended = some (ending provider instance_gone w.now);
    }
    else if n == 3
    then (let (d, r, e) = transition w.io w.disk s.held degraded failing_note in
        on d (record s' { held = r }) ws')
    else on w.disk s' ws'

-- A probe that passes.
unfoldable pub probe_recovers : Poll → Watch → List Warned → Polled
unfolding on
probe_recovers w s ws =
    let s' = record s { failures = 0 } in
    if ltb 0 s.failures
    then (let ws' = ws ++ (recovered s.failures ∷ []) in
        if is_degraded s.held.state
        then (let (d, r, e) = transition w.io w.disk s.held ready recovered_note in
            on d (record s' { held = r }) ws')
        else on w.disk s' ws')
    else on w.disk s' ws

unfoldable pub check_health : SupervisePolicy → Poll → Watch → List Warned → Polled
unfolding probe_fails probe_recovers
check_health p w s ws =
    if leb (health_interval p) (w.now - s.last_health)
    then (let s' = record s { last_health = w.now } in
        if w.probe_passes then probe_recovers w s' ws else probe_fails w s' ws)
    else on w.disk s ws

-- The spend warning, once.
unfoldable pub budget_warning : SupervisePolicy → Poll → Watch → Watch × List Warned
budget_warning p w s =
    if not s.warned_spend && budget_soon p w s.held
    then (record s { warned_spend = true }, budget_left ∷ [])
    else (s, [])

unfoldable pub end_now : Poll → Watch → List Warned → Termination → Polled
end_now w s ws t = record { left = w.disk; watch = s; warned = ws; ended = some t }

-- The idle switch, then the health check.
unfoldable pub check_idle : SupervisePolicy → Poll → Watch → List Warned → Polled
unfolding end_now ending idle_warning
check_idle p w s ws =
    if idle_expired p w && is_idle_destroy p.idle_action
    then end_now w s ws (ending policy idle_timeout w.now)
    else (let (warned, more) = idle_warning p w s.warned_idle in
        check_health p w (record s { warned_idle = warned }) (ws ++ more))

-- The body of the loop, in its order: ended elsewhere, budget, idle, health.
unfoldable pub poll : SupervisePolicy → Poll → Watch → Polled
unfolding end_now ending budget_warning check_idle
poll p w s = elim (ended_elsewhere w.now (load w.disk s.held.id)) [
  | some (stored, t) ↦ end_now w (record s { held = stored }) [] t
  | none ↦
      if over_budget p w s.held
      then end_now w s [] (ending policy budget_ceiling w.now)
      else (let (s', ws) = budget_warning p w s in check_idle p w s' ws)
]

-- Supervise over the polls that the world grants; none is a context that ended, which destroys nothing.
unfoldable pub supervise : SupervisePolicy → Watch → List Poll → Watch × Option Termination
supervise p s [] = (s, none)
supervise p s (w ∷ ws) =
    let out = poll p w s in
    let rest = supervise p out.watch ws in
    elim out.ended [ some t ↦ (out.watch, some t) | none ↦ rest ]
