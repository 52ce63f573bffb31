-- ===== src/Daemon/Provision/Failed.antt =====
-- What a failed create of internal/daemon/up.go comes to: a rig that goes on costing until somebody
-- knows better, or one that is closed as never created.
use larri.Prelude.{
  ℕ, ◌≡◌, ◌⊎◌, inl, inr, refl, ap, sym, ◌∙◌, Bool, true, false, not, Option, none, some, List, [],
  ◌∷◌, ◌++◌, arith,
}
use mathlib.Core.Path.{subst}
use larri.Prelude.Text.{Text, bytes, text_eq, text_eq_refl, is_empty}
use larri.Core.State.{failed, destroyed, is_billable}
use larri.Core.Termination.{Termination, evidence_at, nothing_created}
use larri.Core.Rig.{Rig}
use larri.State.Journal.{Entry, stamp, read_journal, entries_for}
use larri.State.Journal.Durable.{entries_for-append}
use larri.State.Store.{Disk, Io, StoreError, rig, load, intent_entry, transition, seen, billable}
use larri.State.Store.Billing.{last_entry-billable}
use larri.State.Store.Moves.{transition_ok, id-transition}
use larri.State.Cost.{cost_billed, says_nothing_created}
use larri.State.Cost.Ending.{cost_of_nothing_created}
use larri.Daemon.World.{ErrorClass, Found, unanswered, nothing, found, instance_for_rig}
use larri.Daemon.Down.{no_label}
use larri.Daemon.Provision.{
  CreateWorld, never_created, close_never_created, is_unknown_outcome, resolve_found, resolve_moved,
  resolve_failed_create,
}

abbrev pub create_failed_note : Text → Text
create_failed_note cause = bytes "create failed: " ++ cause

-- Nobody knows whether there is an instance: the listing was not answered, or it shows none behind a
-- call whose outcome is unknown.
abbrev pub IsUnsure : ErrorClass → Found → Type 0
IsUnsure kind f = (f ≡ unanswered) ⊎ ((f ≡ nothing) × (is_unknown_outcome kind ≡ true))

found_unsure :
    (w : CreateWorld) (d : Disk) (r : Rig) (cause : Text) (kind : ErrorClass) (f : Found)
    → IsUnsure kind f
    → resolve_found w d r cause kind f ≡ (d, r)
unfolding resolve_found
found_unsure w d r cause kind unanswered h = refl
found_unsure w d r cause kind nothing h = ground arith
found_unsure w d r cause kind (found i) h = ground arith

moved_unsure :
    (w : CreateWorld) (x : Disk × Rig × Option StoreError) (cause : Text) (kind : ErrorClass)
    → IsUnsure kind (instance_for_rig w.listing x.1)
    → resolve_moved w x cause false kind ≡ (x.0, x.1)
unfolding resolve_moved
moved_unsure w (d, r, e) cause kind h = found_unsure w d r cause kind _ h

-- A create that was sent and refused, where nobody knows whether there is an instance, leaves the rig
-- stored as FAILED and among those that cost money, if its move to FAILED returned no error and the
-- journal ended in a newline.
pub unsure-billable :
    (w : CreateWorld) (d : Disk) (r : Rig) (cause : Text) (kind : ErrorClass)
    → d.journal.tail ≡ none
    → let x = transition w.failed_io d r failed (create_failed_note cause) in
      x.2 ≡ none
      → IsUnsure kind (instance_for_rig w.listing x.1)
      → let (d', r') = resolve_failed_create w d r cause false kind in
        (load d' r.id ≡ rig r') × (r'.state ≡ failed) × (seen r.id (billable d') ≡ true)
unfolding resolve_failed_create
unsure-billable w d r cause kind t h unsure =
    let note = create_failed_note cause in
    let x = transition w.failed_io d r failed note in
    let k = transition_ok w.failed_io d r failed note t h in
    subst
      (λ y. (load y.0 r.id ≡ rig y.1) × (y.1.state ≡ failed) × (seen r.id (billable y.0) ≡ true))
      (sym (moved_unsure w x cause kind unsure))
      (
        k.1.0,
        k.1.1,
        last_entry-billable x.0 (read_journal d.journal) w.failed_io.now r failed note
            (unfold is_billable in refl) k.0,
      )

entries_for_own :
    (es : List Entry) (e : Entry) (id : Text)
    → text_eq e.rig_id id ≡ true
    → entries_for (es ++ (e ∷ [])) id ≡ entries_for es id ++ (e ∷ [])
unfolding entries_for
entries_for_own es e id h = rw (entries_for-append es (e ∷ []) id, h) refl

stamp-kept :
    (now : ℕ) (e : Entry)
    → (says_nothing_created (stamp now e) ≡ says_nothing_created e)
      × ((stamp now e).rig_id ≡ e.rig_id)
unfolding stamp says_nothing_created
stamp-kept now e = ground arith

-- The rig is stored as destroyed, and from then on its cost is zero.
abbrev pub IsFree : Text → Disk × Rig → Type 0
IsFree id (d, r) =
    (load d id ≡ rig r)
    × (r.state ≡ destroyed)
    × ((now b : ℕ) → (cost_billed (entries_for (read_journal d.journal) id) now b).total_usd ≡ 0)

-- A move to DESTROYED whose ending says that nothing was created.
pub ended-IsFree :
    (io : Io) (d : Disk) (r : Rig) (t : Termination) (note : Text)
    → is_empty (evidence_at nothing_created t.evidence) ≡ false
    → d.journal.tail ≡ none
    → let x = transition io d (record r { end = some t }) destroyed note in
      x.2 ≡ none → IsFree r.id (x.0, x.1)
ended-IsFree io d r t note filled tail h =
    let r' = record r { end = some t } in
    let e = stamp io.now (intent_entry io.now r' destroyed note) in
    let k = transition_ok io d r' destroyed note tail h in
    let kept = stamp-kept io.now (intent_entry io.now r' destroyed note) in
    let says : says_nothing_created (intent_entry io.now r' destroyed note) ≡ true =
      unfold says_nothing_created intent_entry in ap not filled in
    let own : text_eq e.rig_id r.id ≡ true = rw kept.1 (unfold intent_entry in text_eq_refl r.id) in
    (
      k.1.0,
      k.1.1,
      λ now b.
          rw (k.0, entries_for_own (read_journal d.journal) e r.id own)
            (cost_of_nothing_created (entries_for (read_journal d.journal) r.id) e [] now b
              (kept.0 ∙ says)).0,
    )

close-IsFree :
    (w : CreateWorld) (d : Disk) (r : Rig) (cause why : Text)
    → is_empty why ≡ false
    → d.journal.tail ≡ none
    → (transition w.closed_io d
        (record r { end = some (never_created w.now r cause why) })
        destroyed
        (bytes "no instance was created")).2
      ≡ none
    → IsFree r.id (close_never_created w d r cause why)
unfolding close_never_created
close-IsFree w d r cause why filled t h =
    ended-IsFree w.closed_io d r (never_created w.now r cause why) (bytes "no instance was created")
      (unfold never_created evidence_at text_eq in filled) t h

-- There is no instance: the call was never sent, or its outcome is known and the listing shows none.
abbrev pub IsSure : Bool → ErrorClass → Found → Type 0
IsSure not_sent kind f = (not_sent ≡ true) ⊎ ((f ≡ nothing) × (is_unknown_outcome kind ≡ false))

abbrev why_closed : Bool → Text
why_closed true = bytes "the create was never sent"
why_closed false = no_label

moved_sure :
    (w : CreateWorld) (x : Disk × Rig × Option StoreError) (cause : Text) (not_sent : Bool)
    (kind : ErrorClass)
    → IsSure not_sent kind (instance_for_rig w.listing x.1)
    → resolve_moved w x cause not_sent kind
      ≡ close_never_created w x.0 x.1 cause (why_closed not_sent)
unfolding resolve_moved resolve_found
moved_sure w (d, r, e) cause true kind h = refl
moved_sure w (d, r, e) cause false kind (inl h) = cc
moved_sure w (d, r, e) cause false kind (inr h) = rw (h.0, resolve_found) (rw (h.1) refl)

why_filled : (b : Bool) → is_empty (why_closed b) ≡ false
why_filled true = refl
why_filled false = refl

-- A failed create that certainly created nothing ends the rig: if the move to DESTROYED returns no
-- error and the journal ended in a newline before it, the rig is stored as destroyed and what its
-- journal entries cost, at any time, is zero.
pub closed-IsFree :
    (w : CreateWorld) (d : Disk) (r : Rig) (cause : Text) (not_sent : Bool) (kind : ErrorClass)
    → let x = transition w.failed_io d r failed (create_failed_note cause) in
      IsSure not_sent kind (instance_for_rig w.listing x.1)
      → x.0.journal.tail ≡ none
      → (transition w.closed_io x.0
          (record x.1 { end = some (never_created w.now x.1 cause (why_closed not_sent)) })
          destroyed
          (bytes "no instance was created")).2
        ≡ none
      → IsFree r.id (resolve_failed_create w d r cause not_sent kind)
unfolding resolve_failed_create
closed-IsFree w d r cause not_sent kind sure t h =
    let x = transition w.failed_io d r failed (create_failed_note cause) in
    subst (λ id. IsFree id (resolve_moved w x cause not_sent kind))
      (id-transition w.failed_io d r failed (create_failed_note cause))
      (subst (IsFree x.1.id) (sym (moved_sure w x cause not_sent kind sure))
        (close-IsFree w x.0 x.1 cause (why_closed not_sent) (why_filled not_sent) t h))
