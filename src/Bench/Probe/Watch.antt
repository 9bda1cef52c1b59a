-- ===== src/Bench/Probe/Watch.antt =====
-- bench/acoustic_probe.py: the watchdog of a run.
use telnyx_onset.Prelude.{
  ℕ, zero, suc, ◌+◌, ◌*◌, Bool, false, not, ◌||◌, Option, none, some, List, [], ◌∷◌, ltb, leb,
  if◌then◌else◌, Text, codes,
}
use telnyx_onset.Bench.Probe.{
  ProbeController, legs_answered, bridged, stream_connected, agent_audio_observed,
  capture_completed, seen, is_none, fail,
}

abbrev pub second : ℕ
second = 1000000000

abbrev pub state_timeout_seconds : ℕ
state_timeout_seconds = 15

abbrev pub max_greeting_analysis_seconds : ℕ
max_greeting_analysis_seconds = 15

-- `greeting_started_ns or measurement_start_ns`, where the latter is there.
abbrev pub greeting_origin : Option ℕ → ℕ → ℕ
greeting_origin (some zero) start = start
greeting_origin (some (suc n)) start = suc n
greeting_origin none start = start

-- The state that a run is stuck in; `none` where the sockets classify it.
unfoldable pub missing : ProbeController → Option Text
missing c =
    if is_none c.leg_a
    then some (codes "leg_a_missing")
    else if is_none c.leg_b
    then some (codes "leg_b_missing")
    else if not (seen legs_answered c.states)
    then some (codes "answer_timeout")
    else if not (seen bridged c.states)
    then some (codes "bridge_failed")
    else if not (seen stream_connected c.states) || is_none c.measurement_start_ns
    then some (codes "stream_start_failed")
    else none

-- What one round finds at a reading of the clock: the category to fail with, if any.
abbrev pub waiting_for_greeting : ProbeController → Option ℕ
waiting_for_greeting c = if seen agent_audio_observed c.states then none else c.measurement_start_ns

abbrev pub silent_greeting : ProbeController → ℕ → ℕ → Option Text
silent_greeting c now start =
    if leb (greeting_origin c.greeting_started_ns start + max_greeting_analysis_seconds * second)
      now
    then some (codes "agent_audio_not_observed")
    else none

unfoldable pub verdict : ℕ → ℕ → ProbeController → Option Text
unfolding missing
verdict call_deadline now c =
    if leb call_deadline now then some (codes "call_hangup") else elim (waiting_for_greeting c) [
      | some start ↦ silent_greeting c now start
      | none ↦
          if ltb now (c.last_transition_ns + state_timeout_seconds * second)
          then none
          else missing c
    ]

abbrev pub is_over : ProbeController → Bool
is_over c = seen capture_completed c.states || not (is_none c.failure)

-- The loop, over what the other tasks make of the controller during each sleep and the reading after it.
-- `none`: it is still at it behind the last one.
unfoldable pub watch :
    ℕ → List ((ProbeController → ProbeController) × ℕ) → ProbeController → Option ProbeController
unfolding verdict fail
watch call_deadline [] c = if is_over c then some c else none
watch call_deadline ((others, now) ∷ sleeps) c =
    let d = others c in
    let failed = λ (category : Text). some (fail category now d) in
    let rest = watch call_deadline sleeps d in
    if is_over c
    then some c
    else elim (verdict call_deadline now d) [ some category ↦ failed category | none ↦ rest ]

abbrev pub call_deadline : ProbeController → ℕ
call_deadline c = c.started_ns + c.config.call_seconds * second

abbrev pub watchdog :
    List ((ProbeController → ProbeController) × ℕ) → ProbeController → Option ProbeController
watchdog sleeps c = watch (call_deadline c) sleeps c

-- Whether some reading has come to a time.
abbrev pub reaches : ℕ → List ((ProbeController → ProbeController) × ℕ) → Bool
reaches time [] = false
reaches time ((others, now) ∷ sleeps) = leb time now || reaches time sleeps
