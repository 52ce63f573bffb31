-- ===== src/Daemon/Down/Order.antt =====
-- In which order Down of internal/daemon/up.go makes its calls.
use larri.Prelude.{
  ◌≡◌, ◌⊎◌, inl, inr, refl, ap, ◌∙◌, Option, none, some, List, [], ◌∷◌, ◌++◌, arith, Bool-cases,
  Option-cases, if◌then◌else◌,
}
use mathlib.Core.Path.{subst, sym}
use mathlib.Core.List.{append-nil}
use larri.Prelude.Text.{Text}
use larri.Core.State.{draining, is_destroyed}
use larri.Core.Termination.{Termination}
use larri.Core.Rig.{Rig, Instance}
use larri.State.Store.{Disk, Io, StoreError, already_destroyed, record_intent}
use larri.Daemon.World.{
  Action, intent_journalled, proxy_cleared, destroy_called, Found, unanswered, nothing, found,
  labelled, instance_for_rig, wrong_provider,
}
use larri.Daemon.Down.{
  DownWorld, Downed, confirm_absent, adopt_ending, end_result, record_end, destroy_instance,
  down_looked_up, down_drained, down_intended, down, or_operator,
}
use larri.Daemon.Down.Evidence.{
  Confirmed-cases, drained_held, drained_looked_up, down_adopted, down_tried,
}

result-trace :
    (x : Disk × Rig × Option StoreError) (trace : List Action) → (end_result x trace).trace ≡ trace
unfolding end_result
result-trace (d, r, none) trace = refl
result-trace (d, r, some already_destroyed) trace = ground arith
result-trace (d, r, some _) trace = ground arith

end-trace :
    (io : Io) (d : Disk) (r : Rig) (note : Text) (trace : List Action)
    → (record_end io d r note trace).trace ≡ trace
unfolding record_end
end-trace io d r note trace = result-trace _ trace

destroy-trace :
    (w : DownWorld) (d : Disk) (r : Rig) (i : Instance) (t : Termination) (trace : List Action)
    → (destroy_instance w d r i t trace).trace ≡ trace ++ (destroy_called i.instance_id ∷ [])
unfolding destroy_instance
destroy-trace w d r i t trace = elim (Confirmed-cases (confirm_absent w.turns)) [
  | inl e ↦ rw (e, destroy_instance) (end-trace w.end_io d _ _ _)
  | inr (inl e) ↦ rw (e, destroy_instance) refl
  | inr (inr e) ↦ rw (e, destroy_instance) refl
]

abbrev looked_up : Option (List Instance) → Text → Option Instance
looked_up none id = none
looked_up (some is) id = labelled id is

looked_up_lem :
    (l : Option (List Instance)) (r : Rig) (i : Instance)
    → instance_for_rig l r ≡ found i
    → looked_up l r.id ≡ some i
unfolding instance_for_rig
looked_up_lem none r i f = cc
looked_up_lem (some is) r i f = ground arith

-- The instance on the rig's record, or with none there, the listed one with the rig's label.
abbrev pub IsItsInstance : DownWorld → Rig → Instance → Type 0
IsItsInstance w r i =
    (r.instance_of ≡ some i) ⊎ ((r.instance_of ≡ none) × (looked_up w.listing r.id ≡ some i))

-- What follows the intent and the proxy: at most one call, which destroys the rig's own instance.
abbrev pub DestroysAtMost : DownWorld → Rig → List Action → Type 0
DestroysAtMost w r rest =
    (rest ≡ [])
    ⊎ ((i : Instance) × (IsItsInstance w r i × (rest ≡ destroy_called i.instance_id ∷ [])))

abbrev Drains : DownWorld → Rig → List Action → Downed → Type 0
Drains w r trace out =
    (rest : List Action) × ((out.trace ≡ trace ++ rest) × DestroysAtMost w r rest)

looked_up-Drains :
    (w : DownWorld) (d : Disk) (r : Rig) (t : Termination) (trace : List Action) (f : Found)
    → instance_for_rig w.listing r ≡ f
    → r.instance_of ≡ none
    → Drains w r trace (down_looked_up w d r t trace f)
unfolding down_looked_up
looked_up-Drains w d r t trace unanswered f e = ([], (sym (append-nil trace), inl refl))
looked_up-Drains w d r t trace nothing f e =
    ([], (end-trace w.end_io d _ _ trace ∙ sym (append-nil trace), inl refl))
looked_up-Drains w d r t trace (found i) f e =
    (_, (destroy-trace w d _ i t trace, inr (i, (inr (e, looked_up_lem w.listing r i f), refl))))

drained-Drains :
    (w : DownWorld) (d : Disk) (r : Rig) (t : Termination) (trace : List Action)
    → Drains w r trace (down_drained w d r t trace)
drained-Drains w d r t trace = elim (Option-cases r.instance_of) [
  | inr i ↦
      subst (Drains w r trace) (sym (drained_held w d r t trace i.0 i.1))
        (_, (destroy-trace w d r i.0 t trace, inr (i.0, (inl i.1, refl))))
  | inl e ↦
      subst (Drains w r trace) (sym (drained_looked_up w d r t trace e))
        (looked_up-Drains w d r t trace (instance_for_rig w.listing r) refl e)
]

intended-Drains :
    (w : DownWorld) (x : Disk × Option StoreError) (r : Rig) (t : Termination)
    → ((down_intended w x r t).trace ≡ [])
      ⊎ ((x.1 ≡ none)
          × Drains w r
              (intent_journalled draining ∷ (if w.has_proxy then proxy_cleared ∷ [] else []))
              (down_intended w x r t))
unfolding down_intended
intended-Drains w (d, some e) r t = inl refl
intended-Drains w (d, none) r t = inr (refl, drained-Drains w _ (record r { state = draining }) t _)

abbrev Ordered : DownWorld → Disk → Rig → Option Termination → Downed → Type 0
Ordered w d r term out =
    let t = or_operator w.now term in
    (out.trace ≡ [])
    ⊎ (((record_intent w.intent_io d r draining t.summary).1 ≡ none)
        × Drains w r (intent_journalled draining ∷ (if w.has_proxy then proxy_cleared ∷ [] else []))
            out)

-- Down does nothing at the provider unless the intent to drain was journalled without an error; behind
-- the intent the proxy's target is cleared, if there is a proxy, and only then may one Destroy follow,
-- which names the instance on the rig's record, or with none there, the listed instance with its label.
pub down-order :
    (w : DownWorld) (d : Disk) (r : Rig) (term : Option Termination)
    → let t = or_operator w.now term in
      ((down w d r term).trace ≡ [])
      ⊎ (((record_intent w.intent_io d r draining t.summary).1 ≡ none)
          × ((rest : List Action) × (((down w d r term).trace
                  ≡ intent_journalled draining
                    ∷ ((if w.has_proxy then proxy_cleared ∷ [] else []) ++ rest))
                × DestroysAtMost w r rest)))
unfolding down
down-order w d r term = elim (Bool-cases (wrong_provider w.provider_is r)) [
  | inl e ↦ inl (ground arith)
  | inr e ↦ elim (Bool-cases (is_destroyed r.state)) [
    | inl f ↦ inl (ground arith)
    | inr f ↦ elim (Option-cases (adopt_ending d r)) [
      | inr a ↦ inl (ap (λ o. o.trace) (down_adopted w d r term a.0 e f a.1))
      | inl a ↦
          subst (Ordered w d r term) (sym (down_tried w d r term e f a)) (intended-Drains w _ r _)
    ]
  ]
]
