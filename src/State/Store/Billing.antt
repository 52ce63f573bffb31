-- ===== src/State/Store/Billing.antt =====
-- Which rigs the journal of internal/state/store.go says are costing money.
use larri.Prelude.{
  ℕ, ◌≡◌, refl, Bool, true, false, ◌&&◌, ◌||◌, List, [], ◌∷◌, ◌++◌, arith, if◌then◌else◌,
}
use larri.Prelude.Text.{Text, text_eq, text_eq_iff, text_eq_refl}
use larri.Core.State.{LifecycleState, destroyed, is_billable}
use larri.Core.Rig.{Rig}
use larri.State.Journal.{Entry, stamp, read_journal}
use larri.State.Store.{Disk, intent_entry, last_state, seen, order_from, keep_billable, billable}

seen-append :
    (id k : Text) (ids : List Text) → seen id (ids ++ (k ∷ [])) ≡ (seen id ids || text_eq k id)
unfolding seen
seen-append id k [] = ground arith
seen-append id k (j ∷ ids) = ground (arith, seen-append id k ids)

-- Is there an entry of the rig?
journalled : Text → List Entry → Bool
journalled id [] = false
journalled id (e ∷ es) = text_eq e.rig_id id || journalled id es

seen-order_from :
    (id : Text) (ids : List Text) (es : List Entry)
    → seen id (order_from ids es) ≡ (seen id ids || journalled id es)
unfolding order_from journalled
seen-order_from id ids [] = ground arith
seen-order_from id ids (e ∷ es) = ground (
  arith,
  seen-order_from id ids es,
  seen-order_from id (ids ++ (e.rig_id ∷ [])) es,
  seen-append id e.rig_id ids,
  text_eq_iff e.rig_id id,
)

seen-keep_billable :
    (id : Text) (es : List Entry) (ids : List Text)
    → seen id (keep_billable es ids) ≡ (seen id ids && is_billable (last_state id destroyed es))
unfolding keep_billable seen
seen-keep_billable id es [] = refl
seen-keep_billable id es (j ∷ ids) = ground (arith, seen-keep_billable id es ids, text_eq_iff j id)

last_state_none :
    (id : Text) (s : LifecycleState) (es : List Entry)
    → journalled id es ≡ false
    → last_state id s es ≡ s
unfolding journalled last_state
last_state_none id s [] h = refl
last_state_none id s (e ∷ es) h = ground (arith, last_state_none id s es)

-- A rig is in `Billable` exactly if its last entry in the journal moves it to a billable state; a rig
-- without an entry is not.
pub seen-billable :
    (d : Disk) (id : Text)
    → seen id (billable d) ≡ is_billable (last_state id destroyed (read_journal d.journal))
unfolding billable
seen-billable d id =
    let es = read_journal d.journal in
    rw (seen-keep_billable id es (order_from [] es), seen-order_from id [] es)
      (unfold seen is_billable in ground (arith, last_state_none id destroyed es))

last_state-append :
    (id : Text) (es : List Entry) (e : Entry) (s : LifecycleState)
    → text_eq e.rig_id id ≡ true
    → last_state id s (es ++ (e ∷ [])) ≡ e.to
unfolding last_state
last_state-append id [] e s h = ground arith
last_state-append id (x ∷ es) e s h =
    last_state-append id es e (if text_eq x.rig_id id then x.to else s) h

stamp-to : (now : ℕ) (e : Entry) → ((stamp now e).to ≡ e.to) × ((stamp now e).rig_id ≡ e.rig_id)
unfolding stamp
stamp-to now e = ground arith

-- A rig whose last entry is the intent of a move to a billable state is billable.
pub last_entry-billable :
    (d : Disk) (es : List Entry) (now : ℕ) (r : Rig) (to : LifecycleState) (note : Text)
    → is_billable to ≡ true
    → read_journal d.journal ≡ es ++ (stamp now (intent_entry now r to note) ∷ [])
    → seen r.id (billable d) ≡ true
unfolding intent_entry
last_entry-billable d es now r to note b h =
    let e = intent_entry now r to note in
    let k = stamp-to now e in
    rw (seen-billable d r.id, h)
      (rw (last_state-append r.id es (stamp now e) destroyed (rw k.1 (text_eq_refl r.id)))
        (rw k.0 b))
