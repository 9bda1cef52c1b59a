-- ===== src/Server/SecondCall.antt =====
-- The hangups that the media sockets of onset/server.py ask for during a benchmark run.
use telnyx_onset.Prelude.{
  ◌≡◌, Bool, true, false, not, ◌||◌, ◌&&◌, ◌==◌, List, [], ◌∷◌, is_empty, All,
}
use telnyx_onset.Agent.{Agent}
use telnyx_onset.Server.{App, Command, answer, hang_up, start_streaming}
use telnyx_onset.Server.Socket.{Route, Phase, reading, is_none, Action, hook, connects, steps}

-- A hangup of a call, as opposed to one of the empty id.
abbrev pub names_call : Command → Bool
names_call (hang_up id) = not (is_empty id)
names_call (answer id) = false
names_call (start_streaming id url) = false

abbrev is_reading : Phase → Bool
is_reading reading = true
is_reading _ = false

-- A route that may still get its start event has no call id yet.
abbrev nameless : Route → Bool
nameless r = not (is_reading r.phase && is_none r.agent) || is_empty r.call_control_id

-- Nothing that was sent hangs up a call, and until the benchmark's call is claimed no slot is taken.
record Mute (app : App) : Type 0 where
  commands : All (λ c. names_call c ≡ false) app.commands
  benchmark : app.settings.has_benchmark_profile ≡ true
  free : (app.benchmark_call_claimed || app.limiter.active == 0) ≡ true

record MuteOf (x : App × Route) : Type 0 where
  app : Mute x.0
  route : nameless x.1 ≡ true

record AllMute (app : App) (rs : List Route) : Type 0 where
  quiet : Mute app
  routes : All (λ r. nameless r ≡ true) rs

-- Every command to start streaming is accepted.
abbrev pub all_accepted : List Action → Bool
all_accepted [] = true
all_accepted (hook token accepted w ∷ xs) = accepted && all_accepted xs
all_accepted (connects token ∷ xs) = all_accepted xs
all_accepted (steps i x ∷ xs) = all_accepted xs
