-- ===== src/Daemon/Boot.antt =====
-- internal/daemon/live.go: waitForSSH, one turn of its loop at a time. What the provider, the address
-- and the clock answer in a turn is an argument. Times are nanoseconds. What is only printed is left
-- out.
pub mod Causes
pub mod Heard
pub mod Past
pub mod Recall
pub mod History
pub mod Endings
use larri.Prelude.{
  ℕ, ◌+◌, ◌-◌, ◌*◌, ◌==◌, Bool, true, false, not, ◌&&◌, ◌||◌, Option, none, some, List, [], ◌∷◌,
  ◌++◌, ltb, if◌then◌else◌,
}
use larri.Prelude.Text.{Text, text_eq, bytes, is_empty, trim_space, to_lower}
use larri.Prelude.Search.{equal_fold, is_one_of}

abbrev pub minutes : ℕ → ℕ
minutes n = n * 60000000000

-- What is read of the instance; the disk that it uses is in the digits that `bootSignature` prints.
pub record BootStatus : Type 0 where
  pub status : Text
  pub intent : Text
  pub message : Text
  pub disk_used : Text
  pub ssh_host : Text
  pub ssh_port : ℕ

-- An error comes without an instance.
pub data BootGet : Type 0 where
  failing gone : BootGet
  found : BootStatus → BootGet

-- `now` stands for the readings up to the probe of the address, and `after` for those behind it. `log` is the
-- newest line of a boot log, if the provider keeps one.
pub record BootPoll : Type 0 where
  pub now : ℕ
  pub after : ℕ
  pub got : BootGet
  pub answers : Bool
  pub log : Option Text
  pub caller_ended : Bool

pub record BootLimits : Type 0 where
  pub stall : ℕ
  pub cap : ℕ
  pub unreachable : ℕ

-- The variables of the loop. An empty host is no endpoint.
pub record Booting : Type 0 where
  pub last_host : Text
  pub last_port : ℕ
  pub last_log : Text
  pub last_sig : Text
  pub changed_at : ℕ
  pub endpoint_at : Option ℕ
  pub ever_spoke : Bool
  pub offline_since : Option ℕ

-- `crashed` is the panic on an instance that is not there.
pub data BootEnd : Type 0 where
  usable : Text → ℕ → BootEnd
  vanished stayed_offline abandoned unreachable_host no_progress too_late cancelled crashed :
      BootEnd

pub data BootStep : Type 0 where
  stop : BootEnd → BootStep
  on : Booting → BootStep

unfoldable pub boot_pending : BootStatus → Bool
unfolding is_one_of to_lower trim_space
boot_pending b =
    is_one_of
      (bytes "loading"
        ∷ bytes "created"
        ∷ bytes "creating"
        ∷ bytes "pulling"
        ∷ bytes "starting"
        ∷ bytes "scheduling"
        ∷ [])
      (to_lower (trim_space b.status))

abbrev pub offline_grace : ℕ
offline_grace = 90000000000

unfoldable pub boot_offline : BootStatus → Bool
unfolding equal_fold trim_space
boot_offline b = equal_fold (trim_space b.status) (bytes "offline")

unfoldable pub boot_abandoned : BootStatus → Bool
unfolding is_one_of to_lower trim_space
boot_abandoned b =
    is_one_of (bytes "stopped" ∷ bytes "exited" ∷ bytes "error" ∷ bytes "failed" ∷ [])
      (to_lower (trim_space b.intent))

unfoldable pub boot_signature : BootStatus → Text
boot_signature b = b.status ++ (0 ∷ b.message ++ (0 ∷ b.disk_used))

abbrev pub or_now : Option ℕ → ℕ → Option ℕ
or_now none t = some t
or_now (some s) t = some s

-- The first switch: since when the host has been offline without a break.
unfoldable pub offline_from : Option ℕ → BootGet → ℕ → Option ℕ
unfolding boot_offline
offline_from since failing t = none
offline_from since gone t = none
offline_from since (found b) t = if boot_offline b then or_now since t else none

-- Whether more than `limit` has passed since a time that is set.
unfoldable pub passed_since : Option ℕ → ℕ → ℕ → Bool
passed_since none t limit = false
passed_since (some s) t limit = ltb limit (t - s)

unfoldable pub publishes : BootStatus → Bool
publishes b = not (is_empty b.ssh_host) && ltb 0 b.ssh_port

-- The endpoint clock starts anew on a sign of life, once it runs.
unfoldable pub restarted : Option ℕ → ℕ → Option ℕ
restarted none t = none
restarted (some _) t = some t

-- A turn from the boot log on, in the case `default`.
unfoldable pub hear_log : Booting → BootPoll → Booting
unfolding text_eq restarted
hear_log s p = elim p.log [
  | none ↦ s
  | some line ↦ if text_eq line s.last_log then s else record s {
    last_log = line;
    changed_at = p.after;
    endpoint_at = restarted s.endpoint_at p.after;
  }
]

unfoldable pub hear_status : Booting → BootPoll → BootStatus → Booting
unfolding text_eq restarted boot_signature
hear_status s p b = if text_eq (boot_signature b) s.last_sig then s else record s {
  last_sig = boot_signature b;
  changed_at = p.after;
  endpoint_at = restarted s.endpoint_at p.after;
}

unfoldable pub hear : Booting → BootPoll → BootStatus → Booting
unfolding hear_log hear_status
hear s p b =
    hear_status (hear_log (record s { ever_spoke = s.ever_spoke || not (is_empty b.message) }) p) p
      b

-- The end of a turn: the stall limit, and the wait.
unfoldable pub wait_on : BootLimits → Booting → BootPoll → BootStatus → BootStep
unfolding boot_pending
wait_on l s p b =
    if s.ever_spoke
      && ltb (if boot_pending b then l.stall * 2 else l.stall) (p.after - s.changed_at)
    then stop no_progress
    else if p.caller_ended
    then stop cancelled
    else on s

-- The case of an endpoint, with the address that is tested.
unfoldable pub test_endpoint : BootLimits → Booting → BootPoll → BootStatus → BootStep
unfolding wait_on hear passed_since
test_endpoint l s p b =
    if p.answers
    then stop (usable s.last_host s.last_port)
    else if passed_since s.endpoint_at p.after l.unreachable && not (boot_pending b)
    then stop unreachable_host
    else wait_on l (hear s p b) p b

unfoldable pub remember : Booting → ℕ → BootStatus → Booting
unfolding publishes
remember s t b =
    let s' = record s { endpoint_at = or_now s.endpoint_at t } in
    if publishes b then record s' { last_host = b.ssh_host; last_port = b.ssh_port } else s'

-- The second switch, on an instance.
unfoldable pub boot_found : BootLimits → Booting → BootPoll → BootStatus → BootStep
unfolding test_endpoint remember boot_abandoned
boot_found l s p b =
    if boot_offline b && passed_since s.offline_since p.now offline_grace
    then stop stayed_offline
    else if boot_abandoned b
    then stop abandoned
    else if publishes b || not (is_empty s.last_host)
    then test_endpoint l (remember s p.now b) p b
    else wait_on l (hear s p b) p b

-- One turn. After a failed query the stall limit reads the instance, which is nil then.
unfoldable pub boot_turn : BootLimits → Booting → BootPoll → BootGet → BootStep
unfolding boot_found
boot_turn l s p failing =
    if s.ever_spoke then stop crashed else if p.caller_ended then stop cancelled else on s
boot_turn l s p gone = stop vanished
boot_turn l s p (found b) = boot_found l s p b

unfoldable pub boot_poll : BootLimits → Booting → BootPoll → BootStep
unfolding boot_turn offline_from
boot_poll l s p =
    boot_turn l (record s { offline_since = offline_from s.offline_since p.got p.now }) p p.got

-- The loop, from its deadline, over the turns that there are.
unfoldable pub wait_from : BootLimits → ℕ → Booting → List BootPoll → BootStep
unfolding boot_poll
wait_from l deadline s [] = on s
wait_from l deadline s (p ∷ ps) =
    if not (ltb p.now deadline)
    then stop too_late
    else elim (boot_poll l s p) [ stop e ↦ stop e | on s' ↦ wait_from l deadline s' ps ]

abbrev or_limit : ℕ → ℕ → ℕ
or_limit n d = if n == 0 then d else n

unfoldable pub boot_limits : BootLimits → BootLimits
boot_limits l = record {
  stall = or_limit l.stall (minutes 8);
  cap = or_limit l.cap (minutes 30);
  unreachable = or_limit l.unreachable (minutes 3);
}

abbrev pub boot_start : ℕ → Booting
boot_start t = record {
  last_host = [];
  last_port = 0;
  last_log = [];
  last_sig = [];
  changed_at = t;
  endpoint_at = none;
  ever_spoke = false;
  offline_since = none;
}

unfoldable pub wait_for_ssh : BootLimits → ℕ → List BootPoll → BootStep
unfolding wait_from boot_limits
wait_for_ssh l t ps = let l' = boot_limits l in wait_from l' (t + l'.cap) (boot_start t) ps
