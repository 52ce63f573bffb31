-- ===== src/Daemon/Orphans/Sweep.antt =====
-- What a sweep of internal/daemon/orphans.go has established, and what one unreadable snapshot does.
use larri.Prelude.{
  ◌+◌, ◌≡◌, ◌⊎◌, inl, inr, refl, Bool, true, false, none, some, List, [], ◌∷◌, All, All-map, Among,
  map, length, arith, Bool-cases, if◌then◌else◌,
}
use larri.Prelude.Text.{Text, text_eq, text_eq_iff, is_empty}
use larri.Prelude.Order.{sort_stable, text_lt}
use larri.Prelude.Order.Sorting.{sort_stable-Among}
use larri.Core.Rig.{Instance}
use larri.State.Id.{is_valid_id}
use larri.State.Store.{
  Disk, Snapshot, unreadable, failed_load, unreadable_rig, file_at, load, stored_ids, load_all,
  list_rigs,
}
use larri.Daemon.Supervise.{present}
use larri.Daemon.Down.{confirmed, confirm_absent}
use larri.Daemon.Down.Evidence.{HeardAbsent, confirmed_heard}
use larri.Daemon.Orphans.{
  Orphan, OrphanWorld, known_rig, orphans_among, orphans, destroy_orphan, Swept, sweep_one,
  sweep_from,
}
use larri.Daemon.Orphans.Listing.{IsTracked, orphans_among_lem}

later :
    (b : Bool) (j id : Text) (ids : List Text)
    → Among id ids
    → Among id (if b then j ∷ ids else ids)
later true j id ids m = inr m
later false j id ids m = m

stored_ids-Among :
    (id : Text) (m : List (Text × Snapshot)) (s : Snapshot)
    → is_valid_id id ≡ true
    → file_at id m ≡ some s
    → Among id (stored_ids m)
unfolding stored_ids file_at
stored_ids-Among id [] s v h = cc
stored_ids-Among id ((j, t) ∷ m) s v h = elim (Bool-cases (text_eq j id)) [
  | inl e ↦ let same : j ≡ id = (text_eq_iff j id).0 e in rw (same, v) (inl refl)
  | inr e ↦ later (is_valid_id j) j id (stored_ids m) (stored_ids-Among id m s v (ground arith))
]

load_all_failed :
    (d : Disk) (id : Text) (ids : List Text)
    → load d id ≡ failed_load unreadable_rig
    → Among id ids
    → load_all d ids ≡ none
unfolding load_all
load_all_failed d id [] h m = absurd m
load_all_failed d id (j ∷ ids) h (inl e) = rw (e, h, load_all) refl
load_all_failed d id (j ∷ ids) h (inr m) = ground (arith, load_all_failed d id ids h m)

untracked :
    (os : List Orphan) (i : Instance)
    → (is_empty i.label ≡ true) ⊎ (IsTracked [] i ⊎ Among i (map (λ o. o.held) os))
    → (is_empty i.label ≡ true) ⊎ Among i (map (λ o. o.held) os)
unfolding known_rig
untracked os i (inl e) = inl e
untracked os i (inr (inl t)) = absurd (ground (arith, t.1.0))
untracked os i (inr (inr m)) = inr m

-- With one snapshot that cannot be read, no rig is known: every instance with a label that the
-- provider lists is reported as an orphan, those of the rigs whose own snapshots can be read included.
pub orphans_of_unreadable :
    (d : Disk) (id : Text) (live : List Instance)
    → is_valid_id id ≡ true
    → file_at id d.rigs ≡ some unreadable
    → (os : List Orphan) × ((orphans d (some live) ≡ some os)
        × All (λ i. (is_empty i.label ≡ true) ⊎ Among i (map (λ o. o.held) os)) live)
unfolding orphans list_rigs
orphans_of_unreadable d id live v h =
    let bad : load d id ≡ failed_load unreadable_rig = unfold load in rw (v, h) refl in
    let newest = λ (a b : Text). text_lt b a in
    let none_known = load_all_failed d id (sort_stable newest (stored_ids d.rigs)) bad (
      sort_stable-Among newest id (stored_ids d.rigs)
        (stored_ids-Among id d.rigs unreadable v h)) in
    (
      orphans_among [] live,
      (
        rw none_known refl,
        All-map (λ i x. untracked (orphans_among [] live) i x) live (orphans_among_lem [] live).1,
      ),
    )

-- What a sweep has heard of an orphan that it counts.
abbrev pub HeardGone : OrphanWorld → Type 0
HeardGone w = (w.answer ≡ present) × HeardAbsent w.turns

destroy_orphan-heard : (w : OrphanWorld) → destroy_orphan w ≡ none → HeardGone w
unfolding destroy_orphan
destroy_orphan-heard w h =
    let k : (w.answer ≡ present) × (confirm_absent w.turns ≡ confirmed) = ground arith in
    (k.0, confirmed_heard w.turns k.1)

sweep_one_ok :
    (w : OrphanWorld) (s : Swept) (o : Orphan)
    → (sweep_one w s o).first_error ≡ none
    → (s.first_error ≡ none) × ((destroy_orphan w ≡ none) × ((sweep_one w s o).count ≡ s.count + 1))
unfolding sweep_one
sweep_one_ok w s o h = ground arith

-- A sweep that reports no error has heard of each orphan first that it is there and then that it is
-- gone, and it counts them all.
pub sweep_from_ok :
    (w : Instance → OrphanWorld) (s : Swept) (os : List Orphan)
    → (sweep_from w s os).first_error ≡ none
    → All (λ o. HeardGone (w o.held)) os
      × ((s.first_error ≡ none) × ((sweep_from w s os).count ≡ s.count + length os))
unfolding sweep_from
sweep_from_ok w s [] h = (tt, (h, omega arith))
sweep_from_ok w s (o ∷ os) h =
    let k = sweep_from_ok w (sweep_one (w o.held) s o) os h in
    let j = sweep_one_ok (w o.held) s o k.1.0 in
    ((destroy_orphan-heard (w o.held) j.1.0, k.0), (j.0, omega (arith, k.1.1, j.1.1)))
