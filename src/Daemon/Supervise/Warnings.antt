-- ===== src/Daemon/Supervise/Warnings.antt =====
-- How often the supervisor of internal/daemon/supervise.go warns.
use larri.Prelude.{
  ℕ, suc, ◌+◌, ◌≤◌, ◌<◌, ◌≡◌, ◌⊎◌, Bool, true, false, none, some, List, [], ◌∷◌, ◌++◌, All, arith,
  if◌then◌else◌,
}
use larri.Daemon.Supervise.{
  SupervisePolicy, idle_destroy, warn_lead, Poll, Watch, Warned, budget_left, idle_over, idle_soon,
  probe_failed, recovered, check_health, check_idle, budget_warning, poll, idle_expired,
  idle_warning,
}

-- All that is warned of over a list of polls.
pub warnings_of : SupervisePolicy → Watch → List Poll → List Warned
warnings_of p s [] = []
warnings_of p s (w ∷ ws) =
    let out = poll p w s in
    let rest = warnings_of p out.watch ws in
    elim out.ended [ some t ↦ out.warned | none ↦ out.warned ++ rest ]

pub count : (Warned → Bool) → List Warned → ℕ
count test [] = 0
count test (x ∷ xs) = let rest = count test xs in if test x then suc rest else rest

count-append :
    (test : Warned → Bool) (xs ys : List Warned)
    → count test (xs ++ ys) ≡ count test xs + count test ys
unfolding count
count-append test [] ys = omega arith
count-append test (x ∷ xs) ys = ground (arith, count-append test xs ys)

abbrev pub is_budget : Warned → Bool
is_budget budget_left = true
is_budget _ = false

abbrev pub is_idle : Warned → Bool
is_idle idle_over = true
is_idle idle_soon = true
is_idle _ = false

-- One where a flag is down, none where it is up.
abbrev pub room : Bool → ℕ
room true = 0
room false = 1

health_spend :
    (p : SupervisePolicy) (w : Poll) (s : Watch) (ws : List Warned)
    → (count is_budget (check_health p w s ws).warned ≡ count is_budget ws)
      × (count is_idle (check_health p w s ws).warned ≡ count is_idle ws)
      × ((check_health p w s ws).watch.warned_spend ≡ s.warned_spend)
      × ((check_health p w s ws).watch.warned_idle ≡ s.warned_idle)
unfolding check_health count
health_spend p w s ws = ground (
  arith,
  count-append is_budget ws (probe_failed (s.failures + 1) ∷ []),
  count-append is_idle ws (probe_failed (s.failures + 1) ∷ []),
  count-append is_budget ws (recovered s.failures ∷ []),
  count-append is_idle ws (recovered s.failures ∷ []),
)

-- The idle clock calls for a warning.
abbrev pub IsIdle : SupervisePolicy → Poll → Type 0
IsIdle p w =
    (idle_expired p w ≡ true)
    ⊎ ((0 < p.idle_timeout_ns)
        × (p.idle_timeout_ns ≤ w.idle_for + warn_lead p)
        × (p.idle_action ≡ idle_destroy))

IsIdle-spend :
    (p : SupervisePolicy) (w : Poll) (s : Watch) (ws : List Warned)
    → let out = check_idle p w s ws in
      (count is_budget out.warned ≡ count is_budget ws)
      × (out.watch.warned_spend ≡ s.warned_spend)
      × (IsIdle p w
          → count is_idle out.warned + room out.watch.warned_idle
            ≤ count is_idle ws + room s.warned_idle)
unfolding check_idle idle_warning count
IsIdle-spend p w s ws =
    let (warned, more) = idle_warning p w s.warned_idle in
    let h = health_spend p w (record s { warned_idle = warned }) (ws ++ more) in
    let a = count-append is_budget ws more in
    let b = count-append is_idle ws more in
    (ground (arith, h, a), ground (arith, h), λ i. ground (arith, h, b))

poll_budget :
    (p : SupervisePolicy) (w : Poll) (s : Watch)
    → let out = poll p w s in
      count is_budget out.warned + room out.watch.warned_spend ≤ room s.warned_spend
unfolding poll budget_warning count
poll_budget p w s = let (s', ws) = budget_warning p w s in ground (arith, IsIdle-spend p w s' ws)

poll_idle :
    (p : SupervisePolicy) (w : Poll) (s : Watch)
    → IsIdle p w
    → let out = poll p w s in
      count is_idle out.warned + room out.watch.warned_idle ≤ room s.warned_idle
unfolding poll budget_warning count
poll_idle p w s i =
    let (s', ws) = budget_warning p w s in ground (arith, (IsIdle-spend p w s' ws).2 i)

-- However long a rig is supervised, the spend warning is given once at most, and not at all if it has
-- been given before.
pub budget_warned_once :
    (p : SupervisePolicy) (s : Watch) (ws : List Poll)
    → count is_budget (warnings_of p s ws) ≤ room s.warned_spend
unfolding warnings_of
budget_warned_once p s [] = unfold count in omega arith
budget_warned_once p s (w ∷ ws) =
    let out = poll p w s in
    ground (
      arith,
      poll_budget p w s,
      budget_warned_once p out.watch ws,
      count-append is_budget out.warned (warnings_of p out.watch ws),
    )

-- Over a stretch of polls at each of which the rig is idle enough to be warned of, one idle warning is
-- given at most.
pub idle_warned_once :
    (p : SupervisePolicy) (s : Watch) (ws : List Poll)
    → All (IsIdle p) ws
    → count is_idle (warnings_of p s ws) ≤ room s.warned_idle
unfolding warnings_of
idle_warned_once p s [] h = unfold count in omega arith
idle_warned_once p s (w ∷ ws) h =
    let out = poll p w s in
    ground (
      arith,
      poll_idle p w s h.0,
      idle_warned_once p out.watch ws h.1,
      count-append is_idle out.warned (warnings_of p out.watch ws),
    )
