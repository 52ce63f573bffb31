-- ===== src/Examples/Supervise.antt =====
-- internal/daemon/supervise.go at concrete polls.
use larri.Prelude.{
  ℕ, ◌≡◌, ◌≢◌, inl, inr, refl, Bool, true, false, none, some, [], ◌∷◌, ◌++◌, Bool-cases,
}
use larri.Prelude.Text.{Text, text_eq}
use larri.Core.State.{is_billable, creating, ready}
use larri.Core.Termination.{policy, idle_timeout}
use larri.State.Id.{is_valid_id}
use larri.State.Journal.{whole, entries_for, read_journal}
use larri.State.Cost.{cost_for_rig, cost_billed, replay, replay_entry, compute_billing, close}
use larri.State.Store.{file_at, load}
use larri.Daemon.Supervise.{
  SupervisePolicy, idle_destroy, idle_warn, absent, present, Poll, Watch, ended_elsewhere, ending,
  idle_expired, over_budget, accrued, poll, supervise,
}
use larri.Daemon.Supervise.Endings.{Cause, poll_must_end, poll-Cause, idle_must_end}
use larri.Examples.{instance_1, rig_in, fine, blank_disk, empty_journal, entry_to}

-- Destroy after ten minutes without a request.
abbrev policy_1 : SupervisePolicy
policy_1 = record {
  idle_timeout_ns = 600000000000;
  idle_action = idle_destroy;
  max_usd = 0;
  budget_action = idle_warn;
  health_interval_ns = 0;
  warn_ns = 0;
}

abbrev watch_1 : Watch
watch_1 = record {
  held = rig_in ready (some instance_1);
  last_health = 1000000000000;
  warned_idle = false;
  warned_spend = false;
  failures = 2;
}

-- A poll at which the rig has been idle for so long; the store has no file of it.
abbrev poll_at : ℕ → Bool → Poll
poll_at idle passes = record {
  now = 2000000000000;
  disk = blank_disk;
  io = fine 2000000000000;
  journal_reads = true;
  idle_for = idle;
  probe_passes = passes;
  get_answer = present;
}

poll-Cause_example :
    Cause policy_1 (poll_at 700000000000 true) watch_1 (ending policy idle_timeout 2000000000000)
poll-Cause_example =
    poll-Cause policy_1 (poll_at 700000000000 true) watch_1
      (ending policy idle_timeout 2000000000000)
      (unfold poll ended_elsewhere over_budget load is_valid_id file_at idle_expired in refl)

idle_must_end_example :
    (supervise policy_1 watch_1 ((poll_at 5 false ∷ []) ++ (poll_at 700000000000 true ∷ []))).1
    ≢ none
idle_must_end_example =
    idle_must_end policy_1 watch_1 (poll_at 5 false ∷ []) (poll_at 700000000000 true) []
      (unfold idle_expired in refl) refl

abbrev lenient : SupervisePolicy
lenient = record policy_1 { idle_action = idle_warn }

not_elsewhere : (id : Text) → ended_elsewhere 2000000000000 (load blank_disk id) ≡ none
unfolding ended_elsewhere load file_at
not_elsewhere id = elim (Bool-cases (is_valid_id id)) [ inl e ↦ rw (e) refl | inr e ↦ rw (e) refl ]

present-absent : present ≢ absent
present-absent = λ e. cc

-- A ceiling of one unit, with a warning asked for, and a rig that has cost more.
abbrev capped : SupervisePolicy
capped = record policy_1 { max_usd = 1 }

abbrev spent : Poll
spent = record (poll_at 0 true) {
  disk = record blank_disk {
    journal = record empty_journal { lines = whole (entry_to 1000 creating ready) ∷ [] };
  };
}

poll_must_end_example : (poll capped spent watch_1).ended ≢ none
poll_must_end_example = poll_must_end capped spent watch_1 (
    inl (
      unfold over_budget is_billable accrued cost_for_rig entries_for text_eq read_journal
        cost_billed replay replay_entry compute_billing close in
      refl))
