-- ===== src/Daemon/Fallback/Elsewhere.antt =====
-- On which hosts UpAndServe of internal/daemon/up.go tries again.
use larri.Prelude.{
  ℕ, zero, suc, ◌≡◌, refl, Bool, true, false, not, ◌&&◌, List, [], ◌∷◌, arith, All, All-map,
  Bool-cases, inl, inr,
}
use larri.Prelude.Float.{Float}
use larri.Core.Criteria.{Offer}
use larri.Rank.{Policy}
use larri.Daemon.World.{ErrorClass, host_failure}
use larri.Daemon.Market.{Exclusions, contains, offer_key, exclude_failed}
use larri.Daemon.Market.Narrowed.{
  barred, SameHost, exclude_failed-barred, exclude_failed_mono, note_model_failure-barred,
}
use larri.Daemon.Survey.{UpRequest, Surveyed, surveyed, not_surveyed, survey}
use larri.Daemon.Survey.Chosen.{survey-Checked}
use larri.Daemon.Fallback.{
  Failure, After, serving, no_rig, broke, is_host_failure, explain_deadline, blame_host,
  exclude_after, Try, Brought, AttemptWorld, turn, bring_up, up_and_serve, host_attempts,
}

module _ {F : Type 0} where
  -- No exclusion bars an offer that was tried.
  abbrev pub Free : Exclusions → List (Try F) → Type 0
  Free ex ts = All (λ t. barred ex t.offer ≡ false) ts

  -- No offer that was tried is on the host of one that was tried before it.
  abbrev pub Elsewhere : List (Try F) → Type 0
  Elsewhere [] = Unit
  Elsewhere (t ∷ ts) = All (λ u. SameHost t.offer u.offer → ⊥) ts × Elsewhere ts

  exclude_after_mono :
      (ex : Exclusions) (o p : Offer F) (f : Failure)
      → barred (exclude_after ex o f) p ≡ false
      → barred ex p ≡ false
  unfolding exclude_after
  exclude_after_mono ex o p f h =
      ground (
        arith,
        exclude_failed_mono ex o p,
        note_model_failure-barred (exclude_failed ex o) o p f.op,
      )

  exclude_after-SameHost :
      (ex : Exclusions) (o p : Offer F) (f : Failure)
      → is_host_failure f.class ≡ true
      → barred (exclude_after ex o f) p ≡ false
      → SameHost o p
      → ⊥
  unfolding exclude_after
  exclude_after-SameHost ex o p f e h k = ground (
    arith,
    exclude_failed-barred ex o p k,
    note_model_failure-barred (exclude_failed ex o) o p f.op,
  )

module _ (Fl : Float) where
  turn-Free :
      (again : Exclusions → ErrorClass → Brought Fl.F) (ex : Exclusions) (s : Surveyed Fl)
      (a : After)
      → ((ex' : Exclusions) (e : ErrorClass)
          → Free ex' (again ex' e).tries × Elsewhere (again ex' e).tries)
      → ((t : _) → s ≡ surveyed t → barred ex t.selected.offer ≡ false)
      → Free ex (turn Fl again ex s a).tries × Elsewhere (turn Fl again ex s a).tries
  unfolding turn
  turn-Free again ex (not_surveyed e) a ih free = (tt, tt)
  turn-Free again ex (surveyed s) serving ih free = ((free s refl, tt), (tt, tt))
  turn-Free again ex (surveyed s) (no_rig f ended) ih free = (tt, tt)
  turn-Free again ex (surveyed s) (broke f has_instance attempt_ended caller_ended) ih free =
      let g = blame_host (explain_deadline f attempt_ended) caller_ended in
      let o = s.selected.offer in
      let ex' = exclude_after ex o g in
      let rest = ih ex' g.class in
      elim (Bool-cases (is_host_failure g.class && not caller_ended)) [
        | inl e ↦ rw e (
          (free s refl, All-map (λ u h. exclude_after_mono ex o u.offer g h) _ rest.0),
          (
            All-map (λ u h. exclude_after-SameHost ex o u.offer g (ground arith) h) _ rest.0,
            rest.1,
          ),
        )
        | inr e ↦ rw e ((free s refl, tt), (tt, tt))
      ]

  bring_up-Free :
      (w : ℕ → AttemptWorld Fl) (policy : Policy Fl.F) (req : UpRequest Fl) (n i : ℕ)
      (ex : Exclusions) (last : ErrorClass)
      → let b = bring_up Fl w policy req n i ex last in Free ex b.tries × Elsewhere b.tries
  unfolding bring_up
  bring_up-Free w policy req zero i ex last = (tt, tt)
  bring_up-Free w policy req (suc n) i ex last =
      turn-Free (λ ex' e. bring_up Fl w policy req n (suc i) ex' e) ex
        (survey Fl (w i).outside policy ex req) (w i).after
        (λ ex' e. bring_up-Free w policy req n (suc i) ex' e)
        (λ s h. (survey-Checked Fl (w i).outside policy ex req s h).free)

  -- Over one UpAndServe, no offer is tried on the host of an offer that failed before it: not on its
  -- machine, or, where the provider names none, not under its listing.
  pub up_and_serve-Elsewhere :
      (w : ℕ → AttemptWorld Fl) (policy : Policy Fl.F) (req : UpRequest Fl) (n : ℕ)
      (ex : Exclusions) (port_is_free keys_are_good : Bool)
      → Elsewhere (up_and_serve Fl w policy req n ex port_is_free keys_are_good).tries
  unfolding up_and_serve
  up_and_serve-Elsewhere w policy req n ex false k = tt
  up_and_serve-Elsewhere w policy req n ex true false = tt
  up_and_serve-Elsewhere w policy req n ex true true =
      (bring_up-Free w policy req (host_attempts Fl n) 1 _ host_failure).1

  -- A listing that an earlier UpAndServe of the same process has excluded is not tried, on whatever
  -- market and however long ago that was: the listings are not forgotten as the machines are.
  pub up_and_serve-listings :
      (w : ℕ → AttemptWorld Fl) (policy : Policy Fl.F) (req : UpRequest Fl) (n : ℕ)
      (ex : Exclusions) (port_is_free keys_are_good : Bool) (o : Offer Fl.F)
      → contains ex.listings (offer_key o) ≡ true
      → All
          (λ t. offer_key t.offer ≡ offer_key o → ⊥)
          (up_and_serve Fl w policy req n ex port_is_free keys_are_good).tries
  unfolding up_and_serve
  up_and_serve-listings w policy req n ex false k o h = tt
  up_and_serve-listings w policy req n ex true false o h = tt
  up_and_serve-listings w policy req n ex true true o h =
      All-map (λ t free same. ground arith) _
        (bring_up-Free w policy req (host_attempts Fl n) 1 _ host_failure).0
