-- ===== src/Daemon/Ready.antt =====
-- internal/daemon/live.go: waitReady, one turn of its loop at a time. What the runtime, its log, the
-- counters of the host and the clock answer in a turn is an argument. Times are nanoseconds. What is
-- only printed is left out.
pub mod Endings
use larri.Prelude.{
  ℕ, ◌+◌, ◌-◌, ◌*◌, ◌==◌, Bool, true, false, not, ◌&&◌, ◌||◌, Option, none, some, List, [], ◌∷◌,
  ltb, leb, if◌then◌else◌,
}
use larri.Daemon.Boot.{minutes}

-- `now` is read at the test of the loop and `after` behind the answers. `alive` is none where the
-- runtime cannot tell or fails to.
pub record ReadyPoll : Type 0 where
  pub now : ℕ
  pub after : ℕ
  pub completes : Bool
  pub size : ℕ
  pub has_tail : Bool
  pub counted : Bool
  pub moving : Bool
  pub alive : Option Bool
  pub caller_ended : Bool

pub record ReadyLimits : Type 0 where
  pub cold : ℕ
  pub warm : ℕ
  pub cap : ℕ

-- The variables of the loop.
pub record Readying : Type 0 where
  pub log_bytes : ℕ
  pub last_growth : ℕ
  pub dead_session : ℕ
  pub ever_logged : Bool

pub data ReadyEnd : Type 0 where
  completed connection_lost exited silent stalled past_deadline given_up : ReadyEnd

pub data ReadyStep : Type 0 where
  ends : ReadyEnd → ReadyStep
  goes_on : Readying → ReadyStep

-- Neither the log nor the counters answer.
unfoldable pub is_dead : ReadyPoll → Bool
is_dead p = not p.counted && (p.size == 0) && not p.has_tail

unfoldable pub has_grown : Readying → ReadyPoll → Bool
has_grown s p = ltb s.log_bytes p.size

unfoldable pub is_not_alive : Option Bool → Bool
is_not_alive none = false
is_not_alive (some b) = not b

-- What a turn makes of the variables.
unfoldable pub observe : Readying → ReadyPoll → Readying
unfolding is_dead has_grown
observe s p = record {
  log_bytes = if has_grown s p then p.size else s.log_bytes;
  last_growth = if has_grown s p || p.moving then p.after else s.last_growth;
  dead_session = if is_dead p then s.dead_session + 1 else 0;
  ever_logged = s.ever_logged || has_grown s p;
}

unfoldable pub ready_poll : ReadyLimits → Readying → ReadyPoll → ReadyStep
unfolding observe is_not_alive
ready_poll l s p =
    let s' = observe s p in
    let idle = p.after - s'.last_growth in
    if p.completes
    then ends completed
    else if leb 4 s'.dead_session
    then ends connection_lost
    else if s'.ever_logged && not (has_grown s p) && is_not_alive p.alive
    then ends exited
    else if not s'.ever_logged && ltb l.cold idle
    then ends silent
    else if s'.ever_logged && ltb l.warm idle
    then ends stalled
    else if p.caller_ended
    then ends given_up
    else goes_on s'

unfoldable pub ready_from : ReadyLimits → ℕ → Readying → List ReadyPoll → ReadyStep
unfolding ready_poll
ready_from l deadline s [] = goes_on s
ready_from l deadline s (p ∷ ps) =
    if not (ltb p.now deadline)
    then ends past_deadline
    else elim (ready_poll l s p) [ ends e ↦ ends e | goes_on s' ↦ ready_from l deadline s' ps ]

abbrev or_limit : ℕ → ℕ → ℕ
or_limit n d = if n == 0 then d else n

abbrev pub ready_start : ℕ → Readying
ready_start t = record { log_bytes = 0; last_growth = t; dead_session = 0; ever_logged = false }

-- The cap is `readyCap`, which is never 0.
unfoldable pub wait_ready : ReadyLimits → ℕ → List ReadyPoll → ReadyStep
unfolding ready_from
wait_ready l t ps =
    let l' = record l { cold = or_limit l.cold (minutes 4); warm = or_limit l.warm (minutes 12) } in
    ready_from l' (t + l.cap) (ready_start t) ps
