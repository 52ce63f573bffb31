-- ===== src/State/Store/Destroyed.antt =====
-- How stale copies of a destroyed rig fare in internal/state/store.go.
use larri.Prelude.{
  ◌≡◌, ◌⊎◌, inl, inr, true, none, some, List, [], ◌∷◌, arith, Bool-cases, All, sym, ◌∙◌,
}
use larri.Prelude.Text.{Text, text_eq, text_eq_iff}
use larri.Core.State.{LifecycleState, destroyed}
use larri.Core.Rig.{Rig}
use larri.State.Id.{is_valid_id}
use larri.State.Store.{
  Disk, holds, Io, file_at, put_file, load, guard_destroyed, record_intent, write, save, moved,
  finish_transition, transition,
}
use larri.State.Store.Files.{file_at-put_file, file_at-put_file_self}
use mathlib.Core.Path.{subst}

-- A call of the store by some process, with that process's copy of the rig.
pub data Call : Type 0 where
  transition_call : Io → Rig → LifecycleState → Text → Call
  save_call : Io → Rig → Call
  intent_call : Io → Rig → LifecycleState → Text → Call

unfoldable pub run_call : Disk → Call → Disk
run_call d (transition_call io r to note) = (transition io d r to note).0
run_call d (save_call io r) = (save io d r).0
run_call d (intent_call io r to note) = (record_intent io d r to note).0

unfoldable pub run_calls : Disk → List Call → Disk
unfolding run_call
run_calls d [] = d
run_calls d (c ∷ cs) = run_calls (run_call d c) cs

-- The copy that a call writes from claims to be destroyed itself.
abbrev pub FromDestroyed : Call → Type 0
FromDestroyed (transition_call io r to note) = r.state ≡ destroyed
FromDestroyed (save_call io r) = r.state ≡ destroyed
FromDestroyed (intent_call io r to note) = ⊥

-- The snapshot of `id` is that of a destroyed rig.
abbrev pub StoredDestroyed : Disk → Text → Rig → Type 0
StoredDestroyed d id r = (file_at id d.rigs ≡ some (holds r)) × (r.state ≡ destroyed)

guard_passes :
    (d : Disk) (r cur : Rig) (to : LifecycleState)
    → is_valid_id r.id ≡ true
    → guard_destroyed d r to ≡ none
    → StoredDestroyed d r.id cur
    → (to ≡ destroyed) × (r.state ≡ destroyed)
unfolding guard_destroyed load
guard_passes d r cur to v g h = ground arith

-- The files after a call: as they were, or with the file of the call's rig replaced by `copy`, past
-- the guard.
abbrev Effect : Disk → Disk → Rig → Rig → LifecycleState → Type 0
Effect d d' r copy to =
    (d'.rigs ≡ d.rigs)
    ⊎ ((d'.rigs ≡ put_file r.id (holds copy) d.rigs)
        × (copy.state ≡ to)
        × (is_valid_id r.id ≡ true)
        × (guard_destroyed d r to ≡ none))

save-Effect : (io : Io) (d : Disk) (r : Rig) → Effect d (save io d r).0 r r r.state
unfolding save write
save-Effect io d r = ground arith

transition-Effect :
    (io : Io) (d : Disk) (r : Rig) (to : LifecycleState) (note : Text)
    → Effect d (transition io d r to note).0 r (moved io.now r to note) to
unfolding transition finish_transition write record_intent
transition-Effect io d r to note = ground arith

replaced_self :
    (d d' : Disk) (r copy cur : Rig) (to : LifecycleState)
    → (d'.rigs ≡ put_file r.id (holds copy) d.rigs)
      × (copy.state ≡ to)
      × (is_valid_id r.id ≡ true)
      × (guard_destroyed d r to ≡ none)
    → StoredDestroyed d r.id cur
    → StoredDestroyed d' r.id copy × (r.state ≡ destroyed)
replaced_self d d' r copy cur to x h =
    let g = guard_passes d r cur to x.2 x.3 h in
    ((rw x.0 (file_at-put_file_self r.id (holds copy) d.rigs), x.1 ∙ g.0), g.1)

-- The file of `id` is the replaced one or another.
Effect-StoredDestroyed :
    (d d' : Disk) (id : Text) (r copy cur : Rig) (to : LifecycleState)
    → Effect d d' r copy to
    → StoredDestroyed d id cur
    → (StoredDestroyed d' id cur) ⊎ (StoredDestroyed d' id copy × (r.state ≡ destroyed))
Effect-StoredDestroyed d d' id r copy cur to (inl same) h = inl (rw same h.0, h.1)
Effect-StoredDestroyed d d' id r copy cur to (inr x) h = elim (Bool-cases (text_eq r.id id)) [
  | inl e ↦
      let p = (text_eq_iff r.id id).0 e in
      inr (
        subst (λ i. StoredDestroyed d' i copy × (r.state ≡ destroyed)) p
          (replaced_self d d' r copy cur to x (subst (λ i. StoredDestroyed d i cur) (sym p) h)))
  | inr n ↦ inl (rw (x.0, file_at-put_file r.id id (holds copy) d.rigs, n) h.0, h.1)
]

-- What a call leaves of a destroyed rig's record.
abbrev Kept : Disk → Text → Rig → Call → Type 0
Kept d id r c =
    (StoredDestroyed d id r) ⊎ (((r' : Rig) × StoredDestroyed d id r') × FromDestroyed c)

call-StoredDestroyed :
    (d : Disk) (id : Text) (r : Rig) (c : Call)
    → StoredDestroyed d id r
    → Kept (run_call d c) id r c
unfolding run_call record_intent
call-StoredDestroyed d id cur (transition_call io r to note) h =
    elim (Effect-StoredDestroyed d (transition io d r to note).0 id r (moved io.now r to note) cur
      to (transition-Effect io d r to note) h) [
        | inl k ↦ inl k
        | inr k ↦ inr ((moved io.now r to note, k.0), k.1)
      ]
call-StoredDestroyed d id cur (save_call io r) h =
    elim (Effect-StoredDestroyed d (save io d r).0 id r r cur r.state (save-Effect io d r) h) [
      | inl k ↦ inl k
      | inr k ↦ inr ((r, k.0), k.1)
    ]
call-StoredDestroyed d id cur (intent_call io r to note) h = inl h

-- Over any sequence of transitions, saves and intents, by any processes with any copies and any file
-- system errors, a rig stored as destroyed stays stored as destroyed.
pub run_calls-StoredDestroyed :
    (cs : List Call) (d : Disk) (id : Text) (r : Rig)
    → StoredDestroyed d id r
    → (r' : Rig) × StoredDestroyed (run_calls d cs) id r'
unfolding run_calls
run_calls-StoredDestroyed [] d id r h = (r, h)
run_calls-StoredDestroyed (c ∷ cs) d id r h = elim (call-StoredDestroyed d id r c h) [
  | inl k ↦ run_calls-StoredDestroyed cs (run_call d c) id r k
  | inr k ↦ run_calls-StoredDestroyed cs (run_call d c) id k.0.0 k.0.1
]

-- If none of the copies claims to be destroyed, the record of the first ending, its reason included,
-- stays as it was written.
pub run_calls-first_end :
    (cs : List Call) (d : Disk) (id : Text) (r : Rig)
    → StoredDestroyed d id r
    → All (λ c. ¬ FromDestroyed c) cs
    → file_at id (run_calls d cs).rigs ≡ some (holds r)
unfolding run_calls
run_calls-first_end [] d id r h a = h.0
run_calls-first_end (c ∷ cs) d id r h a = elim (call-StoredDestroyed d id r c h) [
  | inl k ↦ run_calls-first_end cs (run_call d c) id r k a.1
  | inr k ↦ absurd (a.0 k.1)
]
