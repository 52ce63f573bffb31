-- ===== src/Daemon/Supervise/Endings.antt =====
-- When the supervisor of internal/daemon/supervise.go ends a rig, and why.
use larri.Prelude.{
  ◌≤◌, ◌<◌, ◌≡◌, ◌≢◌, ◌⊎◌, inl, inr, refl, true, false, ◌&&◌, none, some, List, [], ◌∷◌, ◌++◌, ◌∙◌,
  sym, All, arith, Bool-cases, Option-cases,
}
use mathlib.Core.Path.{subst}
use larri.Prelude.Text.{Text}
use larri.Core.Termination.{
  policy, provider, idle_timeout, budget_ceiling, instance_gone, Termination,
}
use larri.Core.Rig.{Rig}
use larri.State.Store.{load}
use larri.Daemon.Supervise.{
  SupervisePolicy, Poll, Watch, Warned, idle_destroy, idle_warn, is_idle_destroy, absent,
  ended_elsewhere, over_budget, idle_expired, is_gone, check_health, check_idle, idle_warning,
  budget_warning, end_now, ending, on, poll, supervise,
}

-- Why a poll ends a rig: it has ended elsewhere; it reached the ceiling; it was idle for the window under
-- the destroying action; or the provider, asked after three failed probes in a row, has it no more.
pub data Cause (p : SupervisePolicy) (w : Poll) (s : Watch) (t : Termination) : Type 0 where
  elsewhere :
      (r : Rig) → ended_elsewhere w.now (load w.disk s.held.id) ≡ some (r, t) → Cause p w s t
  ceiling :
      (t.actor ≡ policy) × (t.code ≡ budget_ceiling) × (over_budget p w s.held ≡ true)
      → Cause p w s t
  idleness :
      (t.actor ≡ policy)
        × (t.code ≡ idle_timeout)
        × (p.idle_action ≡ idle_destroy)
        × (0 < p.idle_timeout_ns)
        × (p.idle_timeout_ns ≤ w.idle_for)
        × (over_budget p w s.held ≡ false)
      → Cause p w s t
  gone :
      (t.actor ≡ provider)
        × (t.code ≡ instance_gone)
        × (w.probe_passes ≡ false)
        × (2 ≤ s.failures)
        × (w.get_answer ≡ absent)
        × (s.held.instance_of ≢ none)
      → Cause p w s t

health_cause :
    (p : SupervisePolicy) (w : Poll) (s : Watch) (ws : List Warned) (t : Termination)
    → (check_health p w s ws).ended ≡ some t
    → (t.actor ≡ provider)
      × (t.code ≡ instance_gone)
      × (w.probe_passes ≡ false)
      × (2 ≤ s.failures)
      × (is_gone w s.held ≡ true)
unfolding check_health
health_cause p w s ws t h = ground arith

is_gone_lem :
    (w : Poll) (r : Rig) → is_gone w r ≡ true → (w.get_answer ≡ absent) × (r.instance_of ≢ none)
unfolding is_gone
is_gone_lem w r h = (ground arith, λ e. ground arith)

check_idle_busy :
    (p : SupervisePolicy) (w : Poll) (s : Watch) (ws : List Warned)
    → (idle_expired p w && is_idle_destroy p.idle_action) ≡ false
    → (check_health p w
        (record s { warned_idle = (idle_warning p w s.warned_idle).0 })
        (ws ++ (idle_warning p w s.warned_idle).1)).ended
      ≡ (check_idle p w s ws).ended
unfolding check_idle
check_idle_busy p w s ws h = rw h

idle-Cause :
    (p : SupervisePolicy) (w : Poll) (s : Watch) (ws : List Warned) (t : Termination)
    → (check_idle p w s ws).ended ≡ some t
    → over_budget p w s.held ≡ false
    → Cause p w s t
idle-Cause p w s ws t h rich =
    elim (Bool-cases (idle_expired p w && is_idle_destroy p.idle_action)) [
      | inl idle ↦ idleness (unfold check_idle idle_expired in ground arith)
      | inr busy ↦
          let k =
            health_cause p w (record s { warned_idle = (idle_warning p w s.warned_idle).0 })
              (ws ++ (idle_warning p w s.warned_idle).1) t (check_idle_busy p w s ws busy ∙ h) in
          let g = is_gone_lem w s.held k.4 in gone (k.0, k.1, k.2, k.3, g.0, g.1)
    ]

poll_elsewhere :
    (p : SupervisePolicy) (w : Poll) (s : Watch) (r : Rig) (t : Termination)
    → ended_elsewhere w.now (load w.disk s.held.id) ≡ some (r, t)
    → (poll p w s).ended ≡ some t
unfolding poll end_now
poll_elsewhere p w s r t h = rw (h, poll)

poll_here :
    (p : SupervisePolicy) (w : Poll) (s : Watch)
    → ended_elsewhere w.now (load w.disk s.held.id) ≡ none
    → over_budget p w s.held ≡ false
    → (poll p w s).ended ≡ (check_idle p w (budget_warning p w s).0 (budget_warning p w s).1).ended
unfolding poll
poll_here p w s h k = rw (h, poll) (rw k)

same_rig :
    (p : SupervisePolicy) (w : Poll) (s : Watch)
    → ((budget_warning p w s).0.held ≡ s.held) × ((budget_warning p w s).0.failures ≡ s.failures)
unfolding budget_warning
same_rig p w s = (ground arith, ground arith)

Cause-same :
    (p : SupervisePolicy) (w : Poll) (s s' : Watch) (t : Termination)
    → s'.held ≡ s.held
    → s'.failures ≡ s.failures
    → Cause p w s' t
    → Cause p w s t
Cause-same p w s s' t h f (elsewhere r e) =
    elsewhere r (subst (λ (x : Rig). ended_elsewhere w.now (load w.disk x.id) ≡ some (r, t)) h e)
Cause-same p w s s' t h f (ceiling (a, c, o)) =
    ceiling (a, c, subst (λ x. over_budget p w x ≡ true) h o)
Cause-same p w s s' t h f (idleness (a, c, d, e, l, o)) =
    idleness (a, c, d, e, l, subst (λ x. over_budget p w x ≡ false) h o)
Cause-same p w s s' t h f (gone (a, c, d, e, g, i)) =
    gone (a, c, d, subst (λ n. 2 ≤ n) f e, g, subst (λ (x : Rig). x.instance_of ≢ none) h i)

-- Whenever a poll ends the rig, the reason that it records is one that held at that poll.
pub poll-Cause :
    (p : SupervisePolicy) (w : Poll) (s : Watch) (t : Termination)
    → (poll p w s).ended ≡ some t
    → Cause p w s t
poll-Cause p w s t h = elim (Option-cases (ended_elsewhere w.now (load w.disk s.held.id))) [
  | inr away ↦
      elsewhere away.0.0 (ground (arith, away.1, poll_elsewhere p w s away.0.0 away.0.1 away.1))
  | inl here ↦ elim (Bool-cases (over_budget p w s.held)) [
    | inl over ↦ ceiling (unfold poll end_now ending in ground arith)
    | inr within ↦
        let b = budget_warning p w s in
        let (held, failed) = same_rig p w s in
        Cause-same p w s b.0 t held failed (
          idle-Cause p w b.0 b.1 t (sym (poll_here p w s here within) ∙ h)
            (subst (λ x. over_budget p w x ≡ false) (sym held) within))
  ]
]

-- A poll that finds the rig over its ceiling, whatever the budget's action says, or idle for the window
-- under the destroying action, ends it, whatever else it finds.
pub poll_must_end :
    (p : SupervisePolicy) (w : Poll) (s : Watch)
    → (over_budget p w s.held ≡ true) ⊎ ((idle_expired p w ≡ true) × (p.idle_action ≡ idle_destroy))
    → (poll p w s).ended ≢ none
unfolding poll check_idle end_now
poll_must_end p w s h = λ e. ground arith

-- A supervision that meets a poll at which the rig has been idle for the window, under the destroying
-- action, ends the rig there or before.
pub idle_must_end :
    (p : SupervisePolicy) (s : Watch) (before : List Poll) (w : Poll) (after : List Poll)
    → idle_expired p w ≡ true
    → p.idle_action ≡ idle_destroy
    → (supervise p s (before ++ (w ∷ after))).1 ≢ none
unfolding supervise
idle_must_end p s [] w after i d = λ e. ground (arith, poll_must_end p w s (inr (i, d)))
idle_must_end p s (v ∷ before) w after i d =
    λ e. ground (arith, idle_must_end p (poll p v s).watch before w after i d)

no-Cause :
    (p : SupervisePolicy) (w : Poll) (s : Watch) (t : Termination)
    → p.max_usd ≡ 0
    → (p.idle_timeout_ns ≡ 0) ⊎ (p.idle_action ≡ idle_warn)
    → w.get_answer ≢ absent
    → ended_elsewhere w.now (load w.disk s.held.id) ≡ none
    → ¬ Cause p w s t
no-Cause p w s t b i g e (elsewhere r h) = cc
no-Cause p w s t b i g e (ceiling (a, c, o)) = unfold over_budget in ground arith
no-Cause p w s t b i g e (idleness (a, c, d, pos, l, o)) = ground arith
no-Cause p w s t b i g e (gone (a, c, d, f, h, k)) = g h

-- With no ceiling and no destroying idle window, a rig that no other process ends and that the provider
-- never says is gone is never ended, however many probes fail.
pub supervise_never_ends :
    (p : SupervisePolicy) (s : Watch) (ws : List Poll)
    → p.max_usd ≡ 0
    → (p.idle_timeout_ns ≡ 0) ⊎ (p.idle_action ≡ idle_warn)
    → All
        (λ w.
          (w.get_answer ≢ absent) × ((id : Text) → ended_elsewhere w.now (load w.disk id) ≡ none))
        ws
    → (supervise p s ws).1 ≡ none
unfolding supervise
supervise_never_ends p s [] b i h = refl
supervise_never_ends p s (w ∷ ws) b i h = elim (Option-cases (poll p w s).ended) [
  | inl on ↦ rw (on, supervise) (supervise_never_ends p (poll p w s).watch ws b i h.1)
  | inr end ↦
      absurd (no-Cause p w s end.0 b i h.0.0 (h.0.1 s.held.id) (poll-Cause p w s end.0 end.1))
]
