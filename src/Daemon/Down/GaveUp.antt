-- ===== src/Daemon/Down/GaveUp.antt =====
-- What a Down of internal/daemon/up.go that cannot confirm the absence of an instance leaves.
use larri.Prelude.{
  ◌≡◌, inl, inr, refl, Bool, true, false, Option, none, some, List, arith, Bool-cases, Option-cases,
}
use mathlib.Core.Path.{subst, sym}
use larri.Core.State.{draining, is_destroyed}
use larri.Core.Termination.{Termination}
use larri.Core.Rig.{Rig, Instance}
use larri.State.Store.{Disk, StoreError, already_destroyed, record_intent, transition}
use larri.State.Store.Destroyed.{run_calls}
use larri.Daemon.World.{Action, Found, unanswered, nothing, found, instance_for_rig, wrong_provider}
use larri.Daemon.Down.{
  DownWorld, DownError, other_provider, store_failed, Downed, confirm_absent, adopt_ending,
  end_result, record_end, destroy_instance, down_looked_up, down_drained, down_intended, down,
  or_operator,
}
use larri.Daemon.Down.Evidence.{Confirmed-cases, drained_held, drained_looked_up, down_tried}

-- The errors of a Down that does not know whether the instance is gone.
abbrev pub gave_up : Option DownError → Bool
gave_up none = false
gave_up (some other_provider) = false
gave_up (some (store_failed e)) = false
gave_up (some _) = true

result-gave_up :
    (x : Disk × Rig × Option StoreError) (trace : List Action)
    → gave_up (end_result x trace).failed ≡ false
unfolding end_result
result-gave_up (d, r, none) trace = refl
result-gave_up (d, r, some already_destroyed) trace = ground arith
result-gave_up (d, r, some _) trace = ground arith

-- The disk and the caller's copy are as they were.
abbrev Leaves : Disk → Rig → Downed → Type 0
Leaves d r out = gave_up out.failed ≡ true → (out.left ≡ d) × (out.copy.state ≡ r.state)

result-Leaves :
    (d : Disk) (r : Rig) (x : Disk × Rig × Option StoreError) (trace : List Action)
    → Leaves d r (end_result x trace)
result-Leaves d r x trace h = absurd (ground (arith, result-gave_up x trace))

destroy-Leaves :
    (w : DownWorld) (d : Disk) (r : Rig) (i : Instance) (t : Termination) (trace : List Action)
    → Leaves d r (destroy_instance w d r i t trace)
unfolding record_end destroy_instance
destroy-Leaves w d r i t trace = elim (Confirmed-cases (confirm_absent w.turns)) [
  | inl e ↦ rw (e, destroy_instance) (result-Leaves d r (transition w.end_io d _ _ _) _)
  | inr (inl e) ↦ rw (e, destroy_instance) (λ h. (refl, refl))
  | inr (inr e) ↦ rw (e, destroy_instance) (λ h. (refl, refl))
]

looked_up-Leaves :
    (w : DownWorld) (d : Disk) (r : Rig) (t : Termination) (trace : List Action) (f : Found)
    → Leaves d r (down_looked_up w d r t trace f)
unfolding down_looked_up record_end
looked_up-Leaves w d r t trace unanswered h = (refl, refl)
looked_up-Leaves w d r t trace nothing h = result-Leaves d r (transition w.end_io d _ _ _) trace h
looked_up-Leaves w d r t trace (found i) h =
    destroy-Leaves w d (record r { instance_of = some i }) i t trace h

drained-Leaves :
    (w : DownWorld) (d : Disk) (r : Rig) (t : Termination) (trace : List Action)
    → Leaves d r (down_drained w d r t trace)
drained-Leaves w d r t trace = elim (Option-cases r.instance_of) [
  | inr i ↦
      subst (Leaves d r) (sym (drained_held w d r t trace i.0 i.1))
        (destroy-Leaves w d r i.0 t trace)
  | inl e ↦
      subst (Leaves d r) (sym (drained_looked_up w d r t trace e))
        (looked_up-Leaves w d r t trace (instance_for_rig w.listing r))
]

-- The disk is as the intent and the other processes left it, and the copy is draining.
abbrev LeftDraining : DownWorld → Disk → Downed → Type 0
LeftDraining w d out =
    gave_up out.failed ≡ true → (out.left ≡ run_calls d w.others) × (out.copy.state ≡ draining)

intended-LeftDraining :
    (w : DownWorld) (x : Disk × Option StoreError) (r : Rig) (t : Termination)
    → LeftDraining w x.0 (down_intended w x r t)
unfolding down_intended
intended-LeftDraining w (d, some e) r t h = cc
intended-LeftDraining w (d, none) r t h = drained-Leaves w _ (record r { state = draining }) t _ h

-- A Down that could not list the instances, was cancelled while it waited, or ran out of time before
-- the absence was confirmed, ends nothing: beside the journalled intent it has written nothing to the
-- state directory, where all else is as other processes left it, and the caller's copy is draining.
pub down-gave_up :
    (w : DownWorld) (d : Disk) (r : Rig) (term : Option Termination)
    → gave_up (down w d r term).failed ≡ true
    → ((down w d r term).left
        ≡ run_calls
            (record_intent w.intent_io d r draining (or_operator w.now term).summary).0
            w.others)
      × ((down w d r term).copy.state ≡ draining)
unfolding down
down-gave_up w d r term h = elim (Bool-cases (wrong_provider w.provider_is r)) [
  | inl e ↦ absurd (ground arith)
  | inr e ↦ elim (Bool-cases (is_destroyed r.state)) [
    | inl f ↦ absurd (ground arith)
    | inr f ↦ elim (Option-cases (adopt_ending d r)) [
      | inr a ↦ absurd (ground arith)
      | inl a ↦
          subst (LeftDraining w _) (sym (down_tried w d r term e f a))
            (intended-LeftDraining w _ r _) h
    ]
  ]
]
