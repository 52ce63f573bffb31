-- ===== src/Daemon/Fallback/Attempts.antt =====
-- How often and after what UpAndServe of internal/daemon/up.go tries again.
use larri.Prelude.{
  ℕ, zero, suc, ◌≤◌, ◌≡◌, ◌==◌, ◌⊎◌, ◌∙◌, refl, sym, if◌then◌else◌, Bool, true, false, not, ◌&&◌,
  List, [], ◌∷◌, length, arith, Bool-cases, inl, inr,
}
use larri.Prelude.Float.{Float}
use larri.Rank.{Policy}
use larri.Daemon.World.{ErrorClass, host_failure}
use larri.Daemon.Market.{Exclusions}
use larri.Daemon.Survey.{UpRequest, Surveyed, surveyed, not_surveyed, survey}
use larri.Daemon.Fallback.{
  Failure, After, serving, no_rig, broke, is_host_failure, explain_deadline, blame_host,
  exclude_after, Try, Ending, live, Brought, AttemptWorld, turn, bring_up, up_and_serve,
  host_attempts,
}

-- A failure that another host may not have: its class is the host's, or it is a deadline that passed;
-- and the caller goes on.
abbrev pub IsOfHost : After → Type 0
IsOfHost serving = ⊥
IsOfHost (no_rig f attempt_ended) = ⊥
IsOfHost (broke f has_instance attempt_ended caller_ended) =
    (caller_ended ≡ false) × ((f.class ≡ host_failure) ⊎ (f.is_deadline ≡ true))

abbrev pub is_serving : After → Bool
is_serving serving = true
is_serving _ = false

module _ {F : Type 0} where
  -- Each try but the last failed by its host.
  abbrev pub OnlyHosts : List (Try F) → Type 0
  OnlyHosts [] = Unit
  OnlyHosts (t ∷ []) = Unit
  OnlyHosts (t ∷ u ∷ ts) = IsOfHost t.after × OnlyHosts (u ∷ ts)

  -- The last try serves.
  abbrev pub serves : List (Try F) → Bool
  serves [] = false
  serves (t ∷ []) = is_serving t.after
  serves (t ∷ u ∷ ts) = serves (u ∷ ts)

  abbrev pub is_live : Ending F → Bool
  is_live live = true
  is_live _ = false

  abbrev pub Paced : ℕ → List (Try F) → Ending F → Type 0
  Paced n ts e = (length ts ≤ n) × (OnlyHosts ts × (is_live e ≡ serves ts))

  also_tried-Paced :
      (n : ℕ) (t : Try F) (ts : List (Try F)) (e : Ending F)
      → is_serving t.after ≡ false
      → IsOfHost t.after
      → Paced n ts e
      → Paced (suc n) (t ∷ ts) e
  also_tried-Paced n t [] e q h k = (omega arith, (tt, k.1.1 ∙ sym q))
  also_tried-Paced n t (u ∷ ts) e q h k = (omega arith, ((h, k.1.0), k.1.1))

host_failure_lem : (c : ErrorClass) → is_host_failure c ≡ true → c ≡ host_failure
unfolding is_host_failure
host_failure_lem c h = ground arith

-- What the class is taken for is the host's only if it is, or if a deadline has passed.
blamed_lem :
    (f : Failure) (has_instance attempt_ended caller_ended : Bool)
    → (is_host_failure (blame_host (explain_deadline f attempt_ended) caller_ended).class
        && not caller_ended)
      ≡ true
    → IsOfHost (broke f has_instance attempt_ended caller_ended)
unfolding is_host_failure blame_host explain_deadline
blamed_lem f has_instance attempt_ended caller_ended h = ground (arith, host_failure_lem f.class)

module _ (Fl : Float) where
  turn-Paced :
      (again : Exclusions → ErrorClass → Brought Fl.F) (n : ℕ) (ex : Exclusions) (s : Surveyed Fl)
      (a : After)
      → ((ex' : Exclusions) (e : ErrorClass) → Paced n (again ex' e).tries (again ex' e).ending)
      → let b = turn Fl again ex s a in Paced (suc n) b.tries b.ending
  unfolding turn
  turn-Paced again n ex (not_surveyed e) a ih = (omega arith, (tt, refl))
  turn-Paced again n ex (surveyed s) serving ih = (omega arith, (tt, refl))
  turn-Paced again n ex (surveyed s) (no_rig f ended) ih = (omega arith, (tt, refl))
  turn-Paced again n ex (surveyed s) (broke f has_instance attempt_ended caller_ended) ih =
      let g = blame_host (explain_deadline f attempt_ended) caller_ended in
      let ex' = exclude_after ex s.selected.offer g in
      let a : After = broke f has_instance attempt_ended caller_ended in
      let t : Try Fl.F = record { offer = s.selected.offer; after = a; torn_down = has_instance } in
      elim (Bool-cases (is_host_failure g.class && not caller_ended)) [
        | inl e ↦ rw e (
            also_tried-Paced n t _ _ refl (blamed_lem f has_instance attempt_ended caller_ended e)
              (ih ex' g.class))
        | inr e ↦ rw e (omega arith, (tt, refl))
      ]

  bring_up-Paced :
      (w : ℕ → AttemptWorld Fl) (policy : Policy Fl.F) (req : UpRequest Fl) (n i : ℕ)
      (ex : Exclusions) (last : ErrorClass)
      → let b = bring_up Fl w policy req n i ex last in Paced n b.tries b.ending
  unfolding bring_up
  bring_up-Paced w policy req zero i ex last = (omega arith, (tt, refl))
  bring_up-Paced w policy req (suc n) i ex last =
      turn-Paced (λ ex' e. bring_up Fl w policy req n (suc i) ex' e) n ex
        (survey Fl (w i).outside policy ex req) (w i).after
        (λ ex' e. bring_up-Paced w policy req n (suc i) ex' e)

  -- UpAndServe tries no more offers than it is allowed, three where no number is given. It goes on to
  -- another only if the failure is the host's or a deadline that passed, and the caller has not ended;
  -- and it ends with a serving rig exactly if the last that it tried serves.
  pub up_and_serve-Paced :
      (w : ℕ → AttemptWorld Fl) (policy : Policy Fl.F) (req : UpRequest Fl) (n : ℕ)
      (ex : Exclusions) (port_is_free keys_are_good : Bool)
      → let b = up_and_serve Fl w policy req n ex port_is_free keys_are_good in
        Paced (if n == 0 then 3 else n) b.tries b.ending
  unfolding up_and_serve host_attempts
  up_and_serve-Paced w policy req n ex false k = (omega arith, (tt, refl))
  up_and_serve-Paced w policy req n ex true false = (omega arith, (tt, refl))
  up_and_serve-Paced w policy req n ex true true =
      bring_up-Paced w policy req (if n == 0 then 3 else n) 1 _ host_failure
