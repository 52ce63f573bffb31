-- ===== src/Daemon/Down/Evidence.antt =====
-- On what evidence Down of internal/daemon/up.go says that a rig is over.
use larri.Prelude.{
  ◌≡◌, ◌⊎◌, inl, inr, refl, sym, true, false, Option, none, some, List, [], ◌∷◌, All, arith,
  Bool-cases, Option-cases,
}
use mathlib.Core.Path.{subst}
use larri.Prelude.Text.{Text, text_eq, is_empty}
use larri.Core.State.{draining, destroyed, is_destroyed}
use larri.Core.Termination.{Termination}
use larri.Core.Rig.{Rig, Instance}
use larri.State.Store.{
  Disk, Io, StoreError, already_destroyed, rig, load, record_intent, transition,
}
use larri.State.Store.Moves.{transition_stored, id-transition}
use larri.Daemon.Supervise.{absent}
use larri.Daemon.World.{
  ConfirmTurn, Action, Found, unanswered, nothing, found, labelled, instance_for_rig,
  wrong_provider,
}
use larri.Daemon.Down.{
  DownWorld, Downed, Confirmed, confirmed, not_confirmed, cancelled, confirm_absent, adopt_ending,
  end_result, record_end, destroy_instance, down_looked_up, down_drained, down_intended, down,
  or_operator,
}

-- One of the turns heard from the provider that there is no such instance.
abbrev pub HeardAbsent : List ConfirmTurn → Type 0
HeardAbsent [] = ⊥
HeardAbsent (t ∷ ts) = (t.answer ≡ absent) ⊎ HeardAbsent ts

pub confirmed_heard : (ts : List ConfirmTurn) → confirm_absent ts ≡ confirmed → HeardAbsent ts
unfolding confirm_absent
confirmed_heard [] h = cc
confirmed_heard (t ∷ ts) h = ground (arith, confirmed_heard ts)

-- The listing was answered, and nothing on it carries the rig's label.
abbrev pub ListedNone : Option (List Instance) → Text → Type 0
ListedNone none id = ⊥
ListedNone (some is) id = All (λ i. (is_empty i.label ≡ true) ⊎ (text_eq i.label id ≡ false)) is

labelled-none :
    (id : Text) (is : List Instance)
    → labelled id is ≡ none
    → All (λ i. (is_empty i.label ≡ true) ⊎ (text_eq i.label id ≡ false)) is
unfolding labelled
labelled-none id [] h = tt
labelled-none id (i ∷ is) h = (ground arith, labelled-none id is (ground arith))

nothing_listed :
    (l : Option (List Instance)) (r : Rig) → instance_for_rig l r ≡ nothing → ListedNone l r.id
unfolding instance_for_rig
nothing_listed none r h = cc
nothing_listed (some is) r h = labelled-none r.id is (ground arith)

-- The disk holds the rig as destroyed, and the caller has that record.
abbrev pub IsOver : Text → Downed → Type 0
IsOver id out = (load out.left id ≡ rig out.copy) × (out.copy.state ≡ destroyed)

adopt_over :
    (d : Disk) (r stored : Rig)
    → adopt_ending d r ≡ some stored
    → (load d r.id ≡ rig stored) × (stored.state ≡ destroyed)
unfolding adopt_ending
adopt_over d r stored h = ground arith

result-IsOver :
    (x : Disk × Rig × Option StoreError) (trace : List Action)
    → (x.2 ≡ none → (load x.0 x.1.id ≡ rig x.1) × (x.1.state ≡ destroyed))
    → (end_result x trace).failed ≡ none
    → IsOver x.1.id (end_result x trace)
unfolding end_result
result-IsOver (d, r, none) trace ok_case h = ok_case refl
result-IsOver (d, r, some already_destroyed) trace ok_case h =
    elim (Option-cases (adopt_ending d r)) [
      | inl n ↦ absurd (ground arith)
      | inr a ↦ rw (a.1, end_result) (adopt_over d r a.0 a.1)
    ]
result-IsOver (d, r, some e) trace ok_case h = cc

end-IsOver :
    (io : Io) (d : Disk) (r : Rig) (note : Text) (trace : List Action)
    → (record_end io d r note trace).failed ≡ none
    → IsOver r.id (record_end io d r note trace)
unfolding record_end
end-IsOver io d r note trace h =
    let x = transition io d r destroyed note in
    let same = id-transition io d r destroyed note in
    subst (λ i. IsOver i (end_result x trace)) same
      (result-IsOver x trace
        (λ fine.
          let k = transition_stored io d r destroyed note fine in
          (subst (λ i. load x.0 i ≡ rig x.1) (sym same) k.0, k.1))
        h)

pub Confirmed-cases : (c : Confirmed) → (c ≡ confirmed) ⊎ ((c ≡ not_confirmed) ⊎ (c ≡ cancelled))
Confirmed-cases confirmed = inl refl
Confirmed-cases not_confirmed = inr (inl refl)
Confirmed-cases cancelled = inr (inr refl)

Found-cases : (f : Found) → (f ≡ unanswered) ⊎ ((f ≡ nothing) ⊎ ((i : Instance) × (f ≡ found i)))
Found-cases unanswered = inl refl
Found-cases nothing = inr (inl refl)
Found-cases (found i) = inr (inr (i, refl))

-- The evidence that there is no instance: the provider was heard to say of it that it is absent, or the
-- rig held none and the provider's listing has nothing with its label.
abbrev pub Absence : DownWorld → Rig → Type 0
Absence w r = HeardAbsent w.turns ⊎ ((r.instance_of ≡ none) × ListedNone w.listing r.id)

destroy-IsOver :
    (w : DownWorld) (d : Disk) (r : Rig) (i : Instance) (t : Termination) (trace : List Action)
    → (destroy_instance w d r i t trace).failed ≡ none
    → IsOver r.id (destroy_instance w d r i t trace) × HeardAbsent w.turns
unfolding destroy_instance
destroy-IsOver w d r i t trace = elim (Confirmed-cases (confirm_absent w.turns)) [
  | inl e ↦ rw (e, destroy_instance) (λ h. (end-IsOver _ d _ _ _ h, confirmed_heard w.turns e))
  | inr (inl e) ↦ rw (e, destroy_instance) (λ h. absurd (ground arith))
  | inr (inr e) ↦ rw (e, destroy_instance) (λ h. absurd (ground arith))
]

-- A statement about the result, moved along an equation of results.
IsOver-at :
    (A : Downed → Type 0) (id : Text) {out out' : Downed}
    → out ≡ out'
    → (out'.failed ≡ none → IsOver id out' × A out')
    → out.failed ≡ none
    → IsOver id out × A out
IsOver-at A id e = subst (λ o. o.failed ≡ none → IsOver id o × A o) (sym e)

module _ (w : DownWorld) (d : Disk) (r : Rig) (t : Termination) (trace : List Action) where
  looked_up-IsOver :
      (f : Found)
      → instance_for_rig w.listing r ≡ f
      → r.instance_of ≡ none
      → (down_looked_up w d r t trace f).failed ≡ none
      → IsOver r.id (down_looked_up w d r t trace f) × Absence w r
  unfolding down_looked_up
  looked_up-IsOver unanswered f e h = cc
  looked_up-IsOver nothing f e h =
      (end-IsOver w.end_io d _ _ trace h, inr (e, nothing_listed w.listing r f))
  looked_up-IsOver (found i) f e h =
      let k = destroy-IsOver w d (record r { instance_of = some i }) i t trace h in (k.0, inl k.1)

  pub drained_held :
      (i : Instance)
      → r.instance_of ≡ some i
      → down_drained w d r t trace ≡ destroy_instance w d r i t trace
  unfolding down_drained
  drained_held i e = ground arith

  pub drained_looked_up :
      r.instance_of ≡ none
      → down_drained w d r t trace ≡ down_looked_up w d r t trace (instance_for_rig w.listing r)
  unfolding down_drained
  drained_looked_up e = ground arith

  drained-IsOver :
      (down_drained w d r t trace).failed ≡ none
      → IsOver r.id (down_drained w d r t trace) × Absence w r
  drained-IsOver = elim (Option-cases r.instance_of) [
    | inr i ↦
        IsOver-at (λ out. Absence w r) r.id (drained_held i.0 i.1)
          (λ h. let k = destroy-IsOver w d r i.0 t trace h in (k.0, inl k.1))
    | inl e ↦
        IsOver-at (λ out. Absence w r) r.id (drained_looked_up e)
          (looked_up-IsOver (instance_for_rig w.listing r) refl e)
  ]

-- The ways through Down, each as an equation.
module _ (w : DownWorld) (d : Disk) (r : Rig) (term : Option Termination) where
  pub down_adopted :
      (stored : Rig)
      → wrong_provider w.provider_is r ≡ false
      → is_destroyed r.state ≡ false
      → adopt_ending d r ≡ some stored
      → down w d r term ≡ record { left = d; copy = stored; trace = []; failed = none }
  unfolding down
  down_adopted stored e f a = rw (e, f, a, down) refl

  pub down_tried :
      wrong_provider w.provider_is r ≡ false
      → is_destroyed r.state ≡ false
      → adopt_ending d r ≡ none
      → down w d r term
        ≡ down_intended w
            (record_intent w.intent_io d r draining (or_operator w.now term).summary)
            r
            (or_operator w.now term)
  unfolding down
  down_tried e f a = rw (e, f, a, down) refl

intended-IsOver :
    (w : DownWorld) (x : Disk × Option StoreError) (r : Rig) (t : Termination)
    → (down_intended w x r t).failed ≡ none
    → IsOver r.id (down_intended w x r t) × Absence w r
unfolding down_intended
intended-IsOver w (d, some e) r t h = cc
intended-IsOver w (d, none) r t h = drained-IsOver w _ (record r { state = draining }) t _ h

-- If Down returns no error, then either the caller's own copy was destroyed already and nothing was
-- done; or the rig is stored as destroyed and the caller holds that record, and another process had
-- ended it before, or the absence of its instance was confirmed in this run.
pub down-IsOver :
    (w : DownWorld) (d : Disk) (r : Rig) (term : Option Termination)
    → let out = down w d r term in
      out.failed ≡ none
      → ((r.state ≡ destroyed) × (out.left ≡ d) × (out.copy ≡ r))
        ⊎ (IsOver r.id out × ((load d r.id ≡ rig out.copy) ⊎ Absence w r))
unfolding down
down-IsOver w d r term h = elim (Bool-cases (wrong_provider w.provider_is r)) [
  | inl e ↦ absurd (ground arith)
  | inr e ↦ elim (Bool-cases (is_destroyed r.state)) [
    | inl f ↦ inl (ground arith)
    | inr f ↦ elim (Option-cases (adopt_ending d r)) [
      | inr a ↦ inr (
          IsOver-at (λ out. (load d r.id ≡ rig out.copy) ⊎ Absence w r) r.id
            (down_adopted w d r term a.0 e f a.1)
            (λ k. let over = adopt_over d r a.0 a.1 in (over, inl over.0)) h)
      | inl a ↦ inr (
          IsOver-at (λ out. (load d r.id ≡ rig out.copy) ⊎ Absence w r) r.id
            (down_tried w d r term e f a)
            (λ k. let over = intended-IsOver w _ r _ k in (over.0, inr over.1)) h)
    ]
  ]
]
