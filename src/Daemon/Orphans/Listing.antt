-- ===== src/Daemon/Orphans/Listing.antt =====
-- Which instances Orphans of internal/daemon/orphans.go reports.
use larri.Prelude.{
  ◌≡◌, ◌⊎◌, inl, inr, refl, true, false, Option, none, some, List, [], ◌∷◌, All, All-map, Among,
  arith, Bool-cases, Option-cases, map,
}
use mathlib.Core.Path.{subst, sym}
use larri.Prelude.Text.{is_empty}
use larri.Core.State.{expects_instance}
use larri.Core.Rig.{Rig, Instance}
use larri.Daemon.Orphans.{Orphan, OrphanReason, known_rig, orphan_reason, orphans_among}

-- Local state has a rig for the instance, in a state in which it should have one.
abbrev pub IsTracked : List Rig → Instance → Type 0
IsTracked rigs i =
    (r : Rig) × ((known_rig i.label rigs ≡ some r) × (expects_instance r.state ≡ true))

reason_none :
    (k : Option Rig)
    → orphan_reason k ≡ none
    → (r : Rig) × ((k ≡ some r) × (expects_instance r.state ≡ true))
unfolding orphan_reason
reason_none none h = absurd (cc)
reason_none (some r) h = (r, (refl, ground arith))

reason_some :
    (k : Option Rig) (why : OrphanReason) (r : Rig)
    → orphan_reason k ≡ some why
    → k ≡ some r
    → expects_instance r.state ≡ true
    → ⊥
unfolding orphan_reason expects_instance
reason_some none why r h e x = cc
reason_some (some s) why r h e x = ground arith

module _ (rigs : List Rig) (i : Instance) (is : List Instance) where
  orphans-skip :
      (is_empty i.label ≡ true) ⊎ (orphan_reason (known_rig i.label rigs) ≡ none)
      → orphans_among rigs (i ∷ is) ≡ orphans_among rigs is
  unfolding orphans_among
  orphans-skip h = ground arith

  orphans-keep :
      (why : OrphanReason)
      → is_empty i.label ≡ false
      → orphan_reason (known_rig i.label rigs) ≡ some why
      → (o : Orphan) × ((orphans_among rigs (i ∷ is) ≡ o ∷ orphans_among rigs is) × (o.held ≡ i))
  unfolding orphans_among
  orphans-keep why e h = (
    record {
      held = i;
      is_known = elim (known_rig i.label rigs) [ none ↦ false | some _ ↦ true ];
      reason = why;
    },
    (rw (e, h, orphans_among) refl, refl),
  )

-- What is reported is listed, has a label, and is not the instance of a tracked rig.
abbrev pub IsOrphan : List Rig → List Instance → Orphan → Type 0
IsOrphan rigs live o =
    Among o.held live × ((is_empty o.held.label ≡ false) × (IsTracked rigs o.held → ⊥))

abbrev pub IsAccounted : List Rig → List Orphan → Instance → Type 0
IsAccounted rigs os i =
    (is_empty i.label ≡ true) ⊎ (IsTracked rigs i ⊎ Among i (map (λ o. o.held) os))

still :
    (rigs : List Rig) (os : List Orphan) (o : Orphan) (j : Instance)
    → IsAccounted rigs os j
    → IsAccounted rigs (o ∷ os) j
still rigs os o j (inl e) = inl e
still rigs os o j (inr (inl t)) = inr (inl t)
still rigs os o j (inr (inr m)) = inr (inr (inr m))

-- The orphans are the listed instances with a label for which local state has no rig that should have
-- an instance: each orphan is one of those, and every other listed instance has no label, belongs
-- to a rig that should have one, or is among the orphans.
pub orphans_among_lem :
    (rigs : List Rig) (live : List Instance)
    → All (IsOrphan rigs live) (orphans_among rigs live)
      × All (IsAccounted rigs (orphans_among rigs live)) live
orphans_among_lem rigs [] = (unfold orphans_among in tt, tt)
orphans_among_lem rigs (i ∷ is) =
    let k = orphans_among_lem rigs is in
    let listed = All-map (λ o x. (inr x.0, x.1)) (orphans_among rigs is) k.0 in
    let Listed =
      λ (os : List Orphan). All (IsOrphan rigs (i ∷ is)) os × All (IsAccounted rigs os) (i ∷ is) in
    elim (Bool-cases (is_empty i.label)) [
      | inl e ↦ subst Listed (sym (orphans-skip rigs i is (inl e))) (listed, (inl e, k.1))
      | inr e ↦ elim (Option-cases (orphan_reason (known_rig i.label rigs))) [
        | inl n ↦
            subst Listed (sym (orphans-skip rigs i is (inr n)))
              (listed, (inr (inl (reason_none _ n)), k.1))
        | inr h ↦
            let o = orphans-keep rigs i is h.0 e h.1 in
            let own : IsOrphan rigs (i ∷ is) o.0 = (
              inl (sym o.1.1),
              (rw o.1.1 e, rw o.1.1 (λ t. reason_some _ h.0 t.0 h.1 t.1.0 t.1.1)),
            ) in
            subst Listed (sym o.1.0) (
              (own, listed),
              (
                inr (inr (inl o.1.1)),
                All-map (λ j x. still rigs (orphans_among rigs is) o.0 j x) is k.1,
              ),
            )
      ]
    ]
