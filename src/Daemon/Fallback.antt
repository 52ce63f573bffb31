-- ===== src/Daemon/Fallback.antt =====
-- internal/daemon/up.go: UpAndServe, which tries one offer after another until a rig serves. What
-- happens to an attempt behind its survey is an argument; Provision and Down model its parts.
pub mod Elsewhere
pub mod Attempts
use larri.Prelude.{
  ℕ, zero, suc, ◌==◌, Bool, true, false, not, ◌&&◌, Option, none, some, List, [], ◌∷◌,
  if◌then◌else◌,
}
use larri.Prelude.Text.{Text, bytes}
use larri.Prelude.Float.{Float}
use larri.Core.Criteria.{Offer}
use larri.Rank.{Policy}
use larri.Daemon.World.{ErrorClass, host_failure}
use larri.Daemon.Market.{Exclusions, exclude_failed, note_model_failure}
use larri.Daemon.Survey.{
  Outside, UpRequest, Survey, Surveyed, surveyed, not_surveyed, SurveyError, survey,
}

-- What is read of an error: its class, its operation, and whether it is a deadline that passed.
pub record Failure : Type 0 where
  pub class : ErrorClass
  pub op : Text
  pub is_deadline : Bool

unfoldable pub is_host_failure : ErrorClass → Bool
is_host_failure host_failure = true
is_host_failure _ = false

-- What follows the survey of an attempt. Without a rig, Up has failed or was declined before it spent;
-- the attempt's context may have ended.
-- A rig that failed has an instance or not, and the attempt's context or the caller's may have ended.
pub data After : Type 0 where
  serving : After
  no_rig : Failure → Bool → After
  broke : Failure → Bool → Bool → Bool → After

-- explainDeadline
unfoldable pub explain_deadline : Failure → Bool → Failure
explain_deadline f attempt_ended =
    if f.is_deadline && attempt_ended
    then record { class = host_failure; op = bytes "daemon.attempt"; is_deadline = false }
    else f

-- A deadline that passed while the caller goes on is the host's.
unfoldable pub blame_host : Failure → Bool → Failure
blame_host f caller_ended =
    if f.is_deadline && not caller_ended
    then record { class = host_failure; op = bytes "daemon.attempt"; is_deadline = false }
    else f

unfoldable pub exclude_after : {F : Type 0} → Exclusions → Offer F → Failure → Exclusions
unfolding is_host_failure exclude_failed note_model_failure
exclude_after ex o f =
    if is_host_failure f.class then note_model_failure (exclude_failed ex o) o f.op else ex

-- One offer that was selected: what happened to it, and whether its instance was torn down.
pub record Try (F : Type 0) : Type 0 where
  pub offer : Offer F
  pub after : After
  pub torn_down : Bool

pub data Ending (F : Type 0) : Type 0 where
  live : Ending F
  port_taken no_client_keys : Ending F
  nothing_selected : SurveyError F → Ending F
  stopped : ErrorClass → Ending F

pub record Brought (F : Type 0) : Type 0 where
  pub tries : List (Try F)
  pub ending : Ending F
  pub left : Exclusions

abbrev pub also_tried : {F : Type 0} → Try F → Brought F → Brought F
also_tried t b = record b { tries = t ∷ b.tries }

module _ (Fl : Float) where
  pub record AttemptWorld : Type 0 where
    pub outside : Outside Fl
    pub after : After

  -- What one turn of the loop does with its survey, whose error stands as it is, a deadline that passed
  -- meanwhile included; `again` is the rest of the loop, from the
  -- exclusions and the last error.
  unfoldable pub turn :
      (Exclusions → ErrorClass → Brought Fl.F) → Exclusions → Surveyed Fl → After → Brought Fl.F
  unfolding explain_deadline blame_host exclude_after is_host_failure
  turn again ex (not_surveyed e) _ = record { tries = []; ending = nothing_selected e; left = ex }
  turn again ex (surveyed s) serving = record {
    tries = record { offer = s.selected.offer; after = serving; torn_down = false } ∷ [];
    ending = live;
    left = ex;
  }
  turn again ex (surveyed s) (no_rig f attempt_ended) = record {
    tries = [];
    ending = stopped (explain_deadline f attempt_ended).class;
    left = ex;
  }
  turn again ex (surveyed s) (broke f has_instance attempt_ended caller_ended) =
      let g = blame_host (explain_deadline f attempt_ended) caller_ended in
      let ex' = exclude_after ex s.selected.offer g in
      let t : Try Fl.F = record {
        offer = s.selected.offer;
        after = broke f has_instance attempt_ended caller_ended;
        torn_down = has_instance;
      } in
      if is_host_failure g.class && not caller_ended
      then also_tried t (again ex' g.class)
      else record { tries = t ∷ []; ending = stopped g.class; left = ex' }

  -- The loop, with the attempts that are left, the number of the next, and the last error.
  unfoldable pub bring_up :
      (ℕ → AttemptWorld)
      → Policy Fl.F
      → UpRequest Fl
      → ℕ
      → ℕ
      → Exclusions
      → ErrorClass
      → Brought Fl.F
  unfolding turn
  bring_up w policy req zero i ex last = record { tries = []; ending = stopped last; left = ex }
  bring_up w policy req (suc n) i ex last =
      turn (λ ex' e. bring_up w policy req n (suc i) ex' e) ex
        (survey Fl (w i).outside policy ex req) (w i).after

  unfoldable pub host_attempts : ℕ → ℕ
  host_attempts n = if n == 0 then 3 else n

  -- At least one attempt is made, so the last error before the first is never returned. Of the
  -- exclusions, the machines and the strikes are forgotten first, and the listings are not.
  unfoldable pub up_and_serve :
      (ℕ → AttemptWorld) → Policy Fl.F → UpRequest Fl → ℕ → Exclusions → Bool → Bool → Brought Fl.F
  unfolding bring_up host_attempts
  up_and_serve w policy req max_attempts ex port_is_free keys_are_good =
      let ex' = record ex { machines = []; failed_models = [] } in
      if not port_is_free
      then record { tries = []; ending = port_taken; left = ex' }
      else if not keys_are_good
      then record { tries = []; ending = no_client_keys; left = ex' }
      else bring_up w policy req (host_attempts max_attempts) 1 ex' host_failure
